-- ===== src/C1000k/Text.antt =====
-- network/demo4_c1000k_client.cpp: the two buffers of the client.
use cpp_example.Common.{
  ℕ, ◌≤◌, ◌<◌, ◌≡◌, refl, ap, ◌∙◌, List, [], ◌∷◌, ◌++◌, length, length-append, take,
  length-take_bound, arith,
}
use cpp_example.Common.Outcome.{done, c_string}
use cpp_example.Common.Buffers.{
  write_at-replicate, printed_string-replicate, printed_string-c_string, c_string-prefix,
}
use cpp_example.Common.Strings.{string_written}
use cpp_example.C1000k.Client.{Client, max_buffer, max_port, max_connections, send_text, receive}

-- A string with its zero, in the buffer of 128 bytes.
pub record IsText (wbuf : List ℕ) : Type 0 where
  pub text : List ℕ
  pub rest : List ℕ
  pub parts : wbuf ≡ text ++ 0 ∷ rest
  pub size : length wbuf ≡ max_buffer

pub record IsBounded (c : Client) : Type 0 where
  pub ports : c.port_index < max_port
  pub capped : c.connections ≤ max_connections
  pub entered : length c.registered ≤ c.connections
  pub wbuf : IsText c.wbuf

-- What an int prints as: at most ten digits and a sign.
abbrev pub AreShort : (ℕ → List ℕ) → Type 0
AreShort digits = (n : ℕ) → length (digits n) ≤ 11

pub send_text-IsText :
    (sockfd : ℕ) (text : List ℕ) (c : Client)
    → IsText c.wbuf
    → length text < max_buffer
    → (wbuf : List ℕ) × (send_text sockfd text c
        ≡ done (record c { wbuf = wbuf; sent = c.sent ++ (sockfd, c_string text) ∷ [] }))
      × IsText wbuf
unfolding send_text
send_text-IsText sockfd text c v short =
    let (rest, stored, line, sent, same) =
      string_written text c.wbuf (omega (arith, v.size, short)) in
    (
      text ++ 0 ∷ rest,
      rw stored (rw line (rw sent refl)),
      record { text = text; rest = rest; parts = refl; size = same ∙ v.size },
    )

-- What is received stays within `rbuf`, and leaves a zero behind it.
pub receive_lem :
    (msg wbuf : List ℕ) → IsText wbuf → (taken : List ℕ × ℕ) × (receive msg wbuf ≡ done taken)
unfolding receive
receive_lem msg wbuf v =
    let (more, split) = c_string-prefix v.text in
    let n = length (c_string v.text) in
    let fits : length (take n msg) < max_buffer = omega (
      arith,
      v.size,
      ap length v.parts,
      length-append v.text (0 ∷ v.rest),
      ap length split,
      length-append (c_string v.text) more,
      length-take_bound n msg,
    ) in
    let (text, shown) = printed_string-replicate max_buffer (take n msg) fits in
    (
      (text, length (take n msg)),
      rw v.parts (
          rw (printed_string-c_string v.text v.rest) (
            rw (write_at-replicate max_buffer (take n msg) (omega (arith, fits))) (rw shown refl))),
    )
