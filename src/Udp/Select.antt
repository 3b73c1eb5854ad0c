-- ===== src/Udp/Select.antt =====
-- network/udp/d7_udp_tcp_select_echo_server.cpp: the set-up, the loop over both sockets, and the
-- handler of SIGCHLD. The child's str_echo is that of the helpers.
use cpp_example.Common.{
  ℕ, Bool, true, false, Option, none, some, List, [], ◌∷◌, ◌++◌, if◌then◌else◌,
}
use cpp_example.Common.Outcome.{Outcome, done, ◌>>=◌}
use cpp_example.Echo.Sys.{Act}
use cpp_example.Echo.Worker
use cpp_example.Udp.{Datagram, Ending, waits, err_sys, echo_datagram}

-- select: -1 with EINTR, -1 with another error, or which of the two sockets is in the set.
pub data Selected : Type 0 where
  interrupted select_error : Selected
  ready : Bool → Bool → Selected

-- What the calls of one pass return; `none` and `false` are errors that end the process. The set is
-- filled anew on each pass.
pub record Pass : Type 0 where
  pub selected : Selected
  pub accepted : Option ℕ
  pub forked : Bool
  pub received : Option Datagram
  pub sent_ok : Bool

pub data Deed : Type 0 where
  child : ℕ → Deed  -- a process for a connection, which closes the listening socket
  close_connected : ℕ → Deed
  reply : Datagram → Deed

-- What was done, and whether the process goes on.
unfoldable pub serve_tcp : Pass → List Deed × Bool
serve_tcp p = elim p.accepted [
  | none ↦ ([], false)
  | some connfd ↦
      if p.forked then (child connfd ∷ close_connected connfd ∷ [], true) else ([], false)
]

-- The deeds, `mesg` afterwards, and whether the process goes on.
unfoldable pub serve_udp : Pass → List ℕ → Outcome (List Deed × List ℕ × Bool)
serve_udp p mesg = elim p.received [
  | none ↦ done ([], mesg, false)
  | some d ↦ echo_datagram d mesg >>= λ echoed.
      if p.sent_ok then done (reply echoed.0 ∷ [], echoed.1, true) else done ([], echoed.1, false)
]

abbrev pub with_deeds : List Deed → List Deed × Ending → List Deed × Ending
with_deeds deeds (rest, ending) = (deeds ++ rest, ending)

unfoldable pub serve_both : Bool → Bool → Pass → List ℕ → Outcome (List Deed × List ℕ × Bool)
serve_both tcp udp p mesg =
    let first : List Deed × Bool = if tcp then serve_tcp p else ([], true) in
    if first.1
    then ((if udp then serve_udp p mesg else done ([], mesg, true)) >>= λ second.
        done (first.0 ++ second.0, second.1, second.2))
    else done (first.0, mesg, false)

unfoldable pub select_loop : List Pass → List ℕ → Outcome (List Deed × Ending)
select_loop [] mesg = done ([], waits)
select_loop (p ∷ ps) mesg = elim p.selected [
  | interrupted ↦ select_loop ps mesg
  | select_error ↦ done ([], err_sys)
  | ready tcp udp ↦ serve_both tcp udp p mesg >>= λ served.
      let rest = select_loop ps served.1 in
      if served.2 then (rest >>= λ r. done (with_deeds served.0 r)) else done (served.0, err_sys)
]

-- Whether Socket, Setsockopt, Bind and Listen of the first socket, and Socket and Bind of the
-- second, succeed.
pub record SetupCalls : Type 0 where
  pub tcp_socket : Bool
  pub reuse : Bool
  pub tcp_bind : Bool
  pub listens : Bool
  pub udp_socket : Bool
  pub udp_bind : Bool

unfoldable pub setup_ok : SetupCalls → Bool
setup_ok s =
    if s.tcp_socket
    then (if s.reuse
        then (if s.tcp_bind
            then (if s.listens then (if s.udp_socket then s.udp_bind else false) else false)
            else false)
        else false)
    else false

unfoldable pub select_main : SetupCalls → List Pass → List ℕ → Outcome (List Deed × Ending)
select_main s ps mesg = if setup_ok s then select_loop ps mesg else done ([], err_sys)

-- sig_chld has the text of that of the forking server.
abbrev pub sig_chld : List (Option ℕ) → List Act
sig_chld = Worker.sig_chld
