-- ===== src/Udp/Client.antt =====
-- network/udp/d6_udp_echo_client.cpp.
use cpp_example.Common.{
  ℕ, ◌==◌, Bool, true, false, Option, none, some, List, [], ◌∷◌, ◌++◌, length, take, if◌then◌else◌,
}
use cpp_example.Common.Outcome.{Outcome, done, ◌>>=◌, read_at, write_at, printed_string}
use cpp_example.Udp.{maxline, Ending, err_sys, exit_zero}

-- What a pass of the loop meets: the line that Fgets stores, without the zero behind it; whether
-- Sendto succeeds; and the datagram that Recvfrom takes, `none` for an error.
pub record Pass : Type 0 where
  pub line : List ℕ
  pub sent_ok : Bool
  pub reply : Option (List ℕ)

-- The two arrays on the stack, which nothing clears.
pub record Arrays : Type 0 where
  pub sendline : List ℕ
  pub recvline : List ℕ

-- The datagrams to the server and the lines on the standard output.
pub record Log : Type 0 where
  pub sent : List (List ℕ)
  pub shown : List (List ℕ)

abbrev pub nothing : Log
nothing = record { sent = []; shown = [] }

abbrev pub then_log : List (List ℕ) → List (List ℕ) → Log × Ending → Log × Ending
then_log sent shown (log, ending) =
    (record { sent = sent ++ log.sent; shown = shown ++ log.shown }, ending)

-- Fgets and `strlen(sendline)`: the bytes to send, and the array.
unfoldable pub take_line : List ℕ → List ℕ → Outcome (List ℕ × List ℕ)
take_line line sendline = do
  stored ← write_at sendline 0 (line ++ 0 ∷ [])
  text ← printed_string stored
  message ← read_at stored 0 (length text)
  done (message, stored)

-- Recvfrom of at most MAXLINE bytes, `recvline[n] = 0` and Fputs: what is shown, and the array.
unfoldable pub show_reply : List ℕ → List ℕ → Outcome (List ℕ × List ℕ)
show_reply reply recvline = do
  let received : List ℕ = take maxline reply
  filled ← write_at recvline 0 received
  ended ← write_at filled (length received) (0 ∷ [])
  text ← printed_string ended
  done (text, ended)

-- The loop of both functions up to the end of the input.
unfoldable pub exchange : List Pass → Arrays → Outcome (Log × Ending)
exchange [] a = done (nothing, exit_zero)
exchange (p ∷ ps) a = take_line p.line a.sendline >>= λ taken.
    if p.sent_ok
    then elim p.reply [
      | none ↦ done (record { sent = taken.0 ∷ []; shown = [] }, err_sys)
      | some reply ↦ show_reply reply a.recvline >>= λ shown.
          exchange ps (record { sendline = taken.1; recvline = shown.1 }) >>= λ rest.
          done (then_log (taken.0 ∷ []) (shown.0 ∷ []) rest)
    ]
    else done (nothing, err_sys)

unfoldable pub dg_cli : List Pass → Arrays → Outcome (Log × Ending)
dg_cli ps a = exchange ps a

-- With Connect before the loop, and Write and Read in place of Sendto and Recvfrom.
unfoldable pub dg_cli_with_connect : Bool → List Pass → Arrays → Outcome (Log × Ending)
dg_cli_with_connect false ps a = done (nothing, err_sys)
dg_cli_with_connect true ps a = exchange ps a

-- main: the arguments, Inet_pton and Socket; the usage error also ends the process with status 1.
unfoldable pub client_main : ℕ → Bool → Bool → List Pass → Arrays → Outcome (Log × Ending)
client_main argc address_ok socket_ok ps a =
    if argc == 2
    then (if address_ok
        then (if socket_ok then dg_cli ps a else done (nothing, err_sys))
        else done (nothing, err_sys))
    else done (nothing, err_sys)
