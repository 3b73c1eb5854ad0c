-- ===== src/Common/Ended.antt =====
-- A buffer that keeps a zero at its end.
use Prim.Native.Nat.{ℕ, zero, suc, ◌≤◌, ◌<◌}
use mathlib.Core.Path.{◌≡◌, refl, ap, sym, ◌∙◌}
use mathlib.Core.Bool.{true}
use mathlib.Core.List.{List, [], ◌∷◌, ◌++◌, append_assoc}
use native.Mathlib.Omega.{arith}
use cpp_example.Common.Sets.{contains}
use cpp_example.Common.Lists.{length, drop, length-append}
use cpp_example.Common.Outcome.{done, write_at, printed_string}
use cpp_example.Common.Buffers.{write_at_front, printed_string-contains}
use cpp_example.Common.Strings.{front_length}

-- The last of `n` bytes is 0, as it is at first.
pub record IsEnded (n : ℕ) (buffer : List ℕ) : Type 0 where
  pub front : List ℕ
  pub parts : buffer ≡ front ++ 0 ∷ []
  pub size : length buffer ≡ n

zero_stays : (n : ℕ) (xs : List ℕ) → n ≤ length xs → drop n (xs ++ 0 ∷ []) ≡ drop n xs ++ 0 ∷ []
zero_stays zero xs h = refl
zero_stays (suc n) [] h = absurd (omega arith)
zero_stays (suc n) (x ∷ xs) h = zero_stays n xs (omega arith)

contains-last : (xs : List ℕ) → contains 0 (xs ++ 0 ∷ []) ≡ true
contains-last [] = refl
contains-last (x ∷ xs) = ground (arith, contains-last xs)

-- A message that leaves room for the zero: what is printed ends within the buffer.
pub write-IsEnded :
    {n : ℕ} (msg buffer : List ℕ)
    → IsEnded n buffer
    → length msg < n
    → (line : List ℕ) × (write_at buffer 0 msg ≡ done (msg ++ drop (length msg) buffer))
      × (printed_string (msg ++ drop (length msg) buffer) ≡ done line)
      × IsEnded n (msg ++ drop (length msg) buffer)
write-IsEnded msg buffer v fits =
    let room : length msg ≤ length buffer = omega (arith, fits, v.size) in
    let within : length msg ≤ length v.front =
      omega (arith, fits, v.size, ap length v.parts, length-append v.front (0 ∷ [])) in
    let tail : drop (length msg) buffer ≡ drop (length msg) v.front ++ 0 ∷ [] =
      ap (drop (length msg)) v.parts ∙ zero_stays (length msg) v.front within in
    let ended : msg ++ drop (length msg) buffer ≡ (msg ++ drop (length msg) v.front) ++ 0 ∷ [] =
      ap (λ l. msg ++ l) tail ∙ sym (append_assoc msg (drop (length msg) v.front) (0 ∷ [])) in
    let (line, shown) =
      printed_string-contains (msg ++ drop (length msg) buffer)
        (ap (contains 0) ended ∙ contains-last (msg ++ drop (length msg) v.front)) in
    (
      line,
      write_at_front buffer msg room,
      shown,
      record {
        front = msg ++ drop (length msg) v.front;
        parts = ended;
        size = front_length msg buffer room ∙ v.size;
      },
    )
