-- ===== src/Udp/Echoed.antt =====
-- network/udp: the client and the server with each other.
use cpp_example.Common.{
  ℕ, ◌<◌, ◌≡◌, refl, ap, ◌∙◌, Bool, true, false, Option, some, List, [], ◌∷◌, All, map, length,
  take, take_all, arith,
}
use cpp_example.Common.Outcome.{done, c_string}
use cpp_example.Udp.{maxline, Datagram, waits, exit_zero, dg_echo}
use cpp_example.Udp.Client.{Pass, Arrays, Log, dg_cli}
use cpp_example.Udp.Runs.{
  answered, fails, cut, datagrams_echoed, IsArrays, sent_lines, shown_replies, breaks,
  replies_shown,
}

-- A line as text: no zero byte, and room for the zero behind it.
pub record IsLine (line : List ℕ) : Type 0 where
  pub text : c_string line ≡ line
  pub short : length line < maxline

-- A pass in which the line comes back, and what the server receives for it.
abbrev pub echoed_pass : List ℕ → Pass
echoed_pass line = record { line = line; sent_ok = true; reply = some line }

abbrev pub from_client : ℕ → List ℕ → Option Datagram × Bool
from_client client msg = (some (record { from = client; bytes = msg }), true)

abbrev pub answer : ℕ → List ℕ → Datagram
answer client line = record { from = client; bytes = line }

abbrev pub some_bytes : Datagram → Option (List ℕ)
some_bytes d = some d.bytes

line_taken : (l : List ℕ) → IsLine l → take maxline l ≡ l
line_taken l x = take_all maxline l (omega (arith, x.short))

shorts :
    (ls : List (List ℕ)) → All IsLine ls → All (λ p. length p.line < maxline) (map echoed_pass ls)
shorts [] xs = tt
shorts (l ∷ ls) (x, xs) = (x.short, shorts ls xs)

sent_same : (ls : List (List ℕ)) → All IsLine ls → sent_lines (map echoed_pass ls) ≡ ls
sent_same [] xs = refl
sent_same (l ∷ ls) (x, xs) = rw (x.text, sent_same ls xs) refl

shown_same : (ls : List (List ℕ)) → All IsLine ls → shown_replies (map echoed_pass ls) ≡ ls
shown_same [] xs = refl
shown_same (l ∷ ls) (x, xs) = rw (line_taken l x, x.text, shown_same ls xs) refl

unbroken : (ls : List (List ℕ)) → breaks (map echoed_pass ls) ≡ false
unbroken [] = refl
unbroken (l ∷ ls) = unbroken ls

echoes :
    (client : ℕ) (ls : List (List ℕ))
    → All IsLine ls
    → map cut (answered (map (from_client client) ls)) ≡ map (answer client) ls
echoes client [] xs = refl
echoes client (l ∷ ls) (x, xs) = rw (line_taken l x, echoes client ls xs) refl

none_fails : (client : ℕ) (ls : List (List ℕ)) → fails (map (from_client client) ls) ≡ false
none_fails client [] = refl
none_fails client (l ∷ ls) = none_fails client ls

same_replies :
    (client : ℕ) (ls : List (List ℕ))
    → map some_bytes (map (answer client) ls) ≡ map (λ p. p.reply) (map echoed_pass ls)
same_replies client [] = refl
same_replies client (l ∷ ls) = ap (◌∷◌ (some l)) (same_replies client ls)

to_client : (client : ℕ) (ls : List (List ℕ)) → All (λ d. d.from ≡ client) (map (answer client) ls)
to_client client [] = tt
to_client client (l ∷ ls) = (refl, to_client client ls)

client_run :
    (ls : List (List ℕ)) (a : Arrays)
    → All IsLine ls
    → IsArrays a
    → dg_cli (map echoed_pass ls) a ≡ done (record { sent = ls; shown = ls }, exit_zero)
client_run ls a xs v =
    replies_shown (map echoed_pass ls) a v (shorts ls xs)
    ∙ rw (sent_same ls xs, shown_same ls xs, unbroken ls) refl

server_run :
    (client : ℕ) (ls : List (List ℕ)) (mesg : List ℕ)
    → All IsLine ls
    → length mesg ≡ maxline
    → dg_echo (map (from_client client) ls) mesg ≡ done (map (answer client) ls, waits)
server_run client ls mesg xs size =
    datagrams_echoed (map (from_client client) ls) mesg size
    ∙ rw (echoes client ls xs, none_fails client ls) refl

-- Lines shorter than MAXLINE, over a network that loses nothing: the client sends them, one by
-- one; the server, given these datagrams, answers each to the client; and with these answers as
-- the replies, the client shows the lines that it was given, and ends with status 0.
pub lines_echoed :
    (lines : List (List ℕ)) (a : Arrays) (mesg : List ℕ) (client : ℕ)
    → All IsLine lines
    → IsArrays a
    → length mesg ≡ maxline
    → (log : Log) × (replies : List Datagram) × (dg_cli (map echoed_pass lines) a
        ≡ done (log, exit_zero))
      × (dg_echo (map (from_client client) log.sent) mesg ≡ done (replies, waits))
      × (map some_bytes replies ≡ map (λ p. p.reply) (map echoed_pass lines))
      × All (λ d. d.from ≡ client) replies
      × (log.shown ≡ lines)
lines_echoed lines a mesg client texts v size = (
  record { sent = lines; shown = lines },
  map (answer client) lines,
  client_run lines a texts v,
  server_run client lines mesg texts size,
  same_replies client lines,
  to_client client lines,
  refl,
)
