-- ===== src/Udp.antt =====
-- network/udp: the echo server over datagrams. The wrappers of unp.h (Sendto, Recvfrom, Fgets and
-- the like) end the process when the call fails; what a call returns is an argument, and `none` is
-- such an end.
pub mod Client
pub mod Select
pub mod Buffer
pub mod Runs
pub mod Echoed
pub mod Deeds
pub mod Served
mod Tests
use cpp_example.Common.{
  ℕ, Bool, true, false, Option, none, some, List, [], ◌∷◌, length, take, if◌then◌else◌,
}
use cpp_example.Common.Outcome.{Outcome, done, ◌>>=◌, read_at, write_at}

abbrev pub maxline : ℕ
maxline = 4096

pub record Datagram : Type 0 where
  pub from : ℕ
  pub bytes : List ℕ

-- Whether the process still waits for more input, or was ended by a wrapper.
pub data Ending : Type 0 where
  waits : Ending
  err_sys : Ending
  exit_zero : Ending

-- Recvfrom into `mesg` and Sendto of the bytes received: the reply, and the buffer afterwards. Of
-- a longer datagram recvfrom takes MAXLINE bytes.
unfoldable pub echo_datagram : Datagram → List ℕ → Outcome (Datagram × List ℕ)
echo_datagram d mesg = do
  let received : List ℕ = take maxline d.bytes
  filled ← write_at mesg 0 received
  reply ← read_at filled 0 (length received)
  done (record { from = d.from; bytes = reply }, filled)

-- The loop of dg_echo, over what Recvfrom receives and whether Sendto succeeds: the replies, the
-- one that fails not among them. (`from` of a reply is where it goes.)
unfoldable pub dg_echo : List (Option Datagram × Bool) → List ℕ → Outcome (List Datagram × Ending)
dg_echo [] mesg = done ([], waits)
dg_echo ((none, ok) ∷ rs) mesg = done ([], err_sys)
dg_echo ((some d, ok) ∷ rs) mesg = echo_datagram d mesg >>= λ echoed.
    let rest = dg_echo rs echoed.1 in
    if ok then (rest >>= λ r. done (echoed.0 ∷ r.0, r.1)) else done ([], err_sys)

-- main of d6_udp_echo_server.cpp, over whether Socket and Bind succeed; the buffer of dg_echo is
-- not cleared.
unfoldable pub server_main :
    Bool → Bool → List (Option Datagram × Bool) → List ℕ → Outcome (List Datagram × Ending)
server_main false bound rs mesg = done ([], err_sys)
server_main true false rs mesg = done ([], err_sys)
server_main true true rs mesg = dg_echo rs mesg
