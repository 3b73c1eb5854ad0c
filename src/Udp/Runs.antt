-- ===== src/Udp/Runs.antt =====
-- network/udp: whole runs of the server and of the client.
use cpp_example.Common.{
  ℕ, ◌+◌, ◌<◌, ◌≡◌, refl, Bool, true, false, Option, none, some, List, [], ◌∷◌, All, map, length,
  take, if◌then◌else◌,
}
use cpp_example.Common.Outcome.{done, c_string}
use cpp_example.Udp.{maxline, Datagram, waits, err_sys, exit_zero, dg_echo}
use cpp_example.Udp.Client.{Pass, Arrays, exchange, dg_cli}
use cpp_example.Udp.Buffer.{take_line_lem, show_reply_lem, echo_datagram_lem}

-- The datagrams up to the first error of Recvfrom or Sendto.
abbrev pub answered : List (Option Datagram × Bool) → List Datagram
answered [] = []
answered ((none, ok) ∷ rs) = []
answered ((some d, ok) ∷ rs) = let rest = answered rs in if ok then d ∷ rest else []

abbrev pub fails : List (Option Datagram × Bool) → Bool
fails [] = false
fails ((none, ok) ∷ rs) = true
fails ((some d, ok) ∷ rs) = let rest = fails rs in if ok then rest else true

abbrev pub cut : Datagram → Datagram
cut d = record d { bytes = take maxline d.bytes }

-- Over any datagrams, of any length, the loop of dg_echo never leaves its buffer: each datagram up
-- to the first error is sent back to where it came from, cut to MAXLINE bytes, in the order of the
-- arrivals; and the process ends at that error and not before.
pub datagrams_echoed :
    (rs : List (Option Datagram × Bool)) (mesg : List ℕ)
    → length mesg ≡ maxline
    → dg_echo rs mesg ≡ done (map cut (answered rs), if fails rs then err_sys else waits)
unfolding dg_echo
datagrams_echoed [] mesg size = refl
datagrams_echoed ((none, ok) ∷ rs) mesg size = refl
datagrams_echoed ((some d, true) ∷ rs) mesg size =
    let (mesg', e, size') = echo_datagram_lem d mesg size in
    rw e (rw (datagrams_echoed rs mesg' size') refl)
datagrams_echoed ((some d, false) ∷ rs) mesg size =
    let (mesg', e, size') = echo_datagram_lem d mesg size in rw e refl

-- The arrays have the lengths that they are declared with.
pub record IsArrays (a : Arrays) : Type 0 where
  pub sendline : length a.sendline ≡ maxline
  pub recvline : length a.recvline ≡ maxline + 1

-- What the passes up to the first error send and show.
abbrev pub sent_lines : List Pass → List (List ℕ)
sent_lines [] = []
sent_lines (p ∷ ps) =
    let rest = sent_lines ps in
    if p.sent_ok
    then elim p.reply [ none ↦ c_string p.line ∷ [] | some _ ↦ c_string p.line ∷ rest ]
    else []

abbrev pub shown_replies : List Pass → List (List ℕ)
shown_replies [] = []
shown_replies (p ∷ ps) =
    let rest = shown_replies ps in
    if p.sent_ok then elim p.reply [ none ↦ [] | some r ↦ c_string (take maxline r) ∷ rest ] else []

abbrev pub breaks : List Pass → Bool
breaks [] = false
breaks (p ∷ ps) =
    let rest = breaks ps in if p.sent_ok then elim p.reply [ none ↦ true | some _ ↦ rest ] else true

abbrev Exchanged : List Pass → Type 0
Exchanged ps =
    (a : Arrays)
    → IsArrays a
    → exchange ps a
      ≡ done (
        record { sent = sent_lines ps; shown = shown_replies ps },
        if breaks ps then err_sys else exit_zero,
      )

exchange_first :
    (line : List ℕ) (sent_ok : Bool) (reply : Option (List ℕ)) (ps : List Pass)
    → length line < maxline
    → Exchanged ps
    → Exchanged (record { line = line; sent_ok = sent_ok; reply = reply } ∷ ps)
unfolding exchange
exchange_first line false reply ps short later a v =
    let (stored, e, size) = take_line_lem line a.sendline short v.sendline in rw e refl
exchange_first line true none ps short later a v =
    let (stored, e, size) = take_line_lem line a.sendline short v.sendline in rw e refl
exchange_first line true (some reply) ps short later a v =
    let (stored, e, size) = take_line_lem line a.sendline short v.sendline in
    let (ended, e', size') = show_reply_lem reply a.recvline v.recvline in
    rw e (
      rw e' (
        rw
          (later (record { sendline = stored; recvline = ended })
            (record { sendline = size; recvline = size' }))
          refl))

exchange_all : (ps : List Pass) → All (λ p. length p.line < maxline) ps → Exchanged ps
unfolding exchange
exchange_all [] short a v = refl
exchange_all (p ∷ ps) (short, later) a v =
    exchange_first p.line p.sent_ok p.reply ps short (exchange_all ps later) a v

-- Whatever the replies are, of any length, the loop of the client never leaves its arrays when the
-- lines are shorter than MAXLINE. Each pass up to the first error sends its line up to a zero byte
-- in it, and then shows the reply, up to MAXLINE bytes or a zero in it; without an error the
-- process ends with status 0 at the end of the input.
pub replies_shown :
    (ps : List Pass) (a : Arrays)
    → IsArrays a
    → All (λ p. length p.line < maxline) ps
    → dg_cli ps a
      ≡ done (
        record { sent = sent_lines ps; shown = shown_replies ps },
        if breaks ps then err_sys else exit_zero,
      )
unfolding dg_cli
replies_shown ps a v short = exchange_all ps short a v
