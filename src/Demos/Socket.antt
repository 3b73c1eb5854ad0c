-- ===== src/Demos/Socket.antt =====
-- network/demo1_socket.cpp: the set-up, the accepting loop and the routine of a client's thread.
use cpp_example.Common.{
  ℕ, ◌-◌, ◌<◌, ◌≡◌, refl, ap, map, Bool, true, false, Option, none, some, List, [], ◌∷◌, ◌++◌, All,
  length, replicate, arith,
}
use cpp_example.Common.Outcome.{Outcome, done, overrun, ◌>>=◌, read_at, write_at, printed_string}
use cpp_example.Common.Buffers.{write_at-replicate, printed_string-replicate}
use cpp_example.Common.Strings.{front_read}
use cpp_example.Echo.Sys.{
  Got, got, failed, Act, write, close, print, writes_of, closes_of, Setup, fails, serves,
}

abbrev pub buffer_length : ℕ
buffer_length = 128

-- Socket and bind; the result of listen is not looked at.
unfoldable pub socket_setup : Option ℕ → Bool → Setup (Unit {0})
socket_setup none bound = fails 1
socket_setup (some listenfd) false = fails 2
socket_setup (some listenfd) true = serves listenfd tt

-- Over what recv returns in turn; `true` when the thread has ended. A failure is not looked at:
-- the length of the send is then -1, and so it reads far beyond the buffer.
unfoldable pub routine : ℕ → List Got → Outcome (List Act × Bool)
routine clientfd [] = done ([], false)
routine clientfd (failed e ∷ rs) = overrun
routine clientfd (got [] ∷ rs) = done (close clientfd ∷ [], true)
routine clientfd (got (b ∷ bs) ∷ rs) = write_at (replicate buffer_length 0) 0 (b ∷ bs) >>= λ buffer.
    printed_string buffer >>= λ line. read_at buffer 0 (length (b ∷ bs)) >>= λ message.
    routine clientfd rs >>= λ rest. done (print line ∷ write clientfd message ∷ rest.0, rest.1)

-- Messages of fewer than 128 bytes, and the end of the stream: the routine sends each back, whole
-- and in order, closes the socket once, and ends.
pub routine_echoes :
    (clientfd : ℕ) (msgs : List (List ℕ))
    → All (λ m. (0 < length m) × (length m < buffer_length)) msgs
    → (acts : List Act) × (routine clientfd (map got msgs ++ got [] ∷ []) ≡ done (acts, true))
      × (writes_of acts ≡ map (λ m. (clientfd, m)) msgs)
      × (closes_of acts ≡ clientfd ∷ [])
unfolding routine
routine_echoes clientfd [] sizes = (close clientfd ∷ [], refl, refl, refl)
routine_echoes clientfd ([] ∷ msgs) (size, sizes) = absurd (omega (arith, size.0))
routine_echoes clientfd ((b ∷ bs) ∷ msgs) ((some_bytes, fits), sizes) =
    let (acts, e, w, c) = routine_echoes clientfd msgs sizes in
    let msg : List ℕ = b ∷ bs in
    let (line, shown) = printed_string-replicate buffer_length msg fits in
    (
      print line ∷ write clientfd msg ∷ acts,
      rw (write_at-replicate buffer_length msg (omega (arith, fits)))
          (rw shown (rw (front_read msg (replicate (buffer_length - length msg) 0)) (rw e refl))),
      ap (◌∷◌ (clientfd, msg)) w,
      c,
    )
