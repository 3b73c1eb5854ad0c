-- ===== src/Echo/Worker/Stream.antt =====
-- network/echo/d1_multi_thread_echo_server.cpp: a worker from the start to the end of its stream.
use cpp_example.Common.{
  ℕ, zero, suc, ◌≡◌, refl, ap, ◌∙◌, ◌<◌, ◌≤◌, false, List, [], ◌∷◌, ◌++◌, length, map, All,
  contains, replicate, replicate-add, length-replicate, drop, arith, append-nil,
}
use cpp_example.Common.Outcome.{done, overrun, write_at, printed_string}
use cpp_example.Common.Buffers.{write_at_front}
use cpp_example.Common.Ended.{IsEnded, write-IsEnded}
use cpp_example.Echo.Sys.{Got, got, Act, writes_of, closes_of, print, write, close}
use cpp_example.Echo.Worker.{buffer_length, str_echo, echo_blocks, closed}

-- A block that leaves room for a zero behind it.
abbrev pub IsShort : List ℕ → Type 0
IsShort block = (0 < length block) × (length block < buffer_length)

abbrev Serves : ℕ → List ℕ → List (List ℕ) → List Got → Type 0
Serves fd buffer blocks rest =
    (acts : List Act) × (echo_blocks fd buffer (map got blocks ++ got [] ∷ rest)
      ≡ done (acts, closed))
    × (writes_of acts ≡ map (λ b. (fd, b)) blocks)
    × (closes_of acts ≡ fd ∷ [])

echo_blocks-Serves :
    (fd : ℕ) (buffer : List ℕ) (blocks : List (List ℕ)) (rest : List Got)
    → IsEnded buffer_length buffer
    → All IsShort blocks
    → Serves fd buffer blocks rest
unfolding echo_blocks
echo_blocks-Serves fd buffer [] rest v short = (close fd ∷ [], refl, refl, refl)
echo_blocks-Serves fd buffer ([] ∷ blocks) rest v short = absurd (omega (arith, short.0.0))
echo_blocks-Serves fd buffer ((c ∷ cs) ∷ blocks) rest v short =
    let (line, e, shown, ended) = write-IsEnded (c ∷ cs) buffer v short.0.1 in
    let (acts, runs, writes, closes) =
      echo_blocks-Serves fd ((c ∷ cs) ++ drop (length (c ∷ cs)) buffer) blocks rest ended short.1 in
    (
      write fd (c ∷ cs) ∷ print line ∷ acts,
      rw e (rw shown (rw runs refl)),
      ap (λ l. (fd, c ∷ cs) ∷ l) writes,
      closes,
    )

-- A buffer without a zero is printed beyond its end.
printed_string-overrun : (xs : List ℕ) → contains 0 xs ≡ false → printed_string xs ≡ overrun
printed_string-overrun [] h = refl
printed_string-overrun (x ∷ xs) h = ground (arith, h, printed_string-overrun xs)

drop_all : {A : Type 0} (n : ℕ) (xs : List A) → length xs ≤ n → drop n xs ≡ []
drop_all zero [] h = refl
drop_all zero (x ∷ xs) h = absurd (omega arith)
drop_all (suc n) [] h = refl
drop_all (suc n) (x ∷ xs) h = drop_all n xs (omega arith)

full_overrun :
    (fd : ℕ) (buffer : List ℕ) (blocks : List (List ℕ)) (full : List ℕ) (rest : List Got)
    → IsEnded buffer_length buffer
    → All IsShort blocks
    → length full ≡ buffer_length
    → contains 0 full ≡ false
    → echo_blocks fd buffer (map got blocks ++ got full ∷ rest) ≡ overrun
unfolding echo_blocks
full_overrun fd buffer [] [] rest v short size none_zero = absurd (omega (arith, size))
full_overrun fd buffer [] (c ∷ cs) rest v short size none_zero =
    let filled : write_at buffer 0 (c ∷ cs) ≡ done (c ∷ cs) =
      write_at_front buffer (c ∷ cs) (omega (arith, size, v.size))
      ∙ ap (λ l. done ((c ∷ cs) ++ l))
          (drop_all (length (c ∷ cs)) buffer (omega (arith, size, v.size)))
      ∙ ap done (append-nil (c ∷ cs)) in
    rw filled (rw (printed_string-overrun (c ∷ cs) none_zero) refl)
full_overrun fd buffer ([] ∷ blocks) full rest v short size none_zero =
    absurd (omega (arith, short.0.0))
full_overrun fd buffer ((c ∷ cs) ∷ blocks) full rest v short size none_zero =
    let (line, e, shown, ended) = write-IsEnded (c ∷ cs) buffer v short.0.1 in
    let later =
      full_overrun fd ((c ∷ cs) ++ drop (length (c ∷ cs)) buffer) blocks full rest ended short.1
        size none_zero in
    rw e (rw shown (rw later refl))

cleared : IsEnded buffer_length (replicate buffer_length 0)
cleared = record {
  front = replicate 1023 0;
  parts = replicate-add {A = ℕ} 1023 1 0;
  size = length-replicate {A = ℕ} buffer_length 0;
}

-- A worker whose client sends blocks that each arrive in one read of fewer than 1024 bytes: if the
-- stream ends behind them, the worker stays within its buffer, has sent each block back, in order,
-- and has closed the connection once, whatever the calls would return later; if a block of 1024
-- bytes without a zero comes behind them, its printing leaves the buffer.
pub str_echo_serves :
    (fd : ℕ) (blocks : List (List ℕ)) (rest : List Got)
    → All IsShort blocks
    → ((acts : List Act) × (str_echo fd (map got blocks ++ got [] ∷ rest) ≡ done (acts, closed))
        × (writes_of acts ≡ map (λ b. (fd, b)) blocks)
        × (closes_of acts ≡ fd ∷ []))
      × ((full : List ℕ)
          → length full ≡ buffer_length
          → contains 0 full ≡ false
          → str_echo fd (map got blocks ++ got full ∷ rest) ≡ overrun)
unfolding str_echo
str_echo_serves fd blocks rest short = (
  echo_blocks-Serves fd (replicate buffer_length 0) blocks rest cleared short,
  λ full size none_zero.
      full_overrun fd (replicate buffer_length 0) blocks full rest cleared short size none_zero,
)
