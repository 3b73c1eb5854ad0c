-- ===== src/Udp/Buffer.antt =====
-- network/udp: one datagram or line through the arrays of the programs, whatever was in them.
use cpp_example.Common.{
  ℕ, ◌+◌, ◌≤◌, ◌<◌, ◌≡◌, refl, ap, ◌∙◌, List, [], ◌∷◌, ◌++◌, length, length-append, take, drop,
  length-drop, length-take_bound, arith,
}
use cpp_example.Common.Outcome.{done, c_string}
use cpp_example.Common.Buffers.{write_at-append, write_at_front, printed_string-c_string}
use cpp_example.Common.Strings.{front_read, front_length, nonempty, string_written}
use cpp_example.Udp.{maxline, Datagram, echo_datagram}
use cpp_example.Udp.Client.{take_line, show_reply}

-- The bytes up to the first zero are sent.
pub take_line_lem :
    (line sendline : List ℕ)
    → length line < maxline
    → length sendline ≡ maxline
    → (stored : List ℕ) × (take_line line sendline ≡ done (c_string line, stored))
      × (length stored ≡ maxline)
unfolding take_line
take_line_lem line sendline short size =
    let (rest, stored, text, sent, same) =
      string_written line sendline (omega (arith, short, size)) in
    (line ++ 0 ∷ rest, rw stored (rw text (rw sent refl)), same ∙ size)

-- Of a reply of any length, what fits in MAXLINE and precedes a zero is shown.
pub show_reply_lem :
    (reply recvline : List ℕ)
    → length recvline ≡ maxline + 1
    → (ended : List ℕ) × (show_reply reply recvline ≡ done (c_string (take maxline reply), ended))
      × (length ended ≡ maxline + 1)
unfolding show_reply
show_reply_lem reply recvline size =
    let msg : List ℕ = take maxline reply in
    let room : length msg ≤ length recvline =
      omega (arith, size, length-take_bound maxline reply) in
    let (old, rest, split) =
      nonempty (drop (length msg) recvline)
        (omega (arith, size, length-take_bound maxline reply, length-drop (length msg) recvline)) in
    (
      msg ++ 0 ∷ rest,
      rw (write_at_front recvline msg room) (
          rw
            (write_at-append (msg ++ drop (length msg) recvline) msg (old ∷ []) rest (0 ∷ [])
              (length msg) (ap (λ l. msg ++ l) split) refl refl)
            (rw (printed_string-c_string msg rest) refl)),
      omega (
        arith,
        size,
        room,
        length-append msg (0 ∷ rest),
        length-drop (length msg) recvline,
        ap length split,
      ),
    )

pub echo_datagram_lem :
    (d : Datagram) (mesg : List ℕ)
    → length mesg ≡ maxline
    → (mesg' : List ℕ) × (echo_datagram d mesg
        ≡ done (record { from = d.from; bytes = take maxline d.bytes }, mesg'))
      × (length mesg' ≡ maxline)
unfolding echo_datagram
echo_datagram_lem d mesg size =
    let room : length (take maxline d.bytes) ≤ length mesg =
      omega (arith, size, length-take_bound maxline d.bytes) in
    (
      _,
      rw (write_at_front mesg (take maxline d.bytes) room)
          (rw (front_read (take maxline d.bytes) (drop (length (take maxline d.bytes)) mesg)) refl),
      front_length (take maxline d.bytes) mesg room ∙ size,
    )
