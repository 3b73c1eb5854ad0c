-- ===== src/Echo/Select/Service.antt =====
-- network/echo/d3_select_echo_server.cpp: every ready client is served.
use cpp_example.Common.{ℕ, ◌≤◌, ◌≡◌, refl, sym, ap, ◌∙◌, false, arith, length}
use cpp_example.Echo.Sys.{next, FdSet, fd_clr}
use cpp_example.Echo.Slots.{Walked, walk}
use cpp_example.Echo.Slots.Order.{ready_count, answers, walk-acts}
use cpp_example.Echo.Slots.Entries.{answers-Unused, ready_count-le}
use cpp_example.Echo.Select.{Server, Pass, serve_clients, select_pass}
use cpp_example.Echo.Select.Invariant.{IsTracked, serve_clients-IsTracked}

-- A pass of a tracked server without a new connection: if select counted at least the ready
-- clients, each one in the array gets its bytes back, or is closed at the end of its stream or on
-- an error, in the order of the array, and nothing else is done.
pub select_pass-answers :
    (listenfd : ℕ) (p : Pass) (s : Server)
    → IsTracked listenfd s
    → p.rset listenfd ≡ false
    → ready_count (λ i fd. p.rset fd) p.reads (length s.client) 0 s.client ≤ p.nready
    → (s' : Server) × (select_pass listenfd p s
        ≡ next s' (answers (λ i fd. p.rset fd) p.reads (length s.client) 0 s.client))
      × IsTracked listenfd s'
unfolding select_pass serve_clients
select_pass-answers listenfd p s t quiet counted =
    (after, turned, serve_clients-IsTracked listenfd p.nready p s after w.acts t refl)
  where
    w : Walked FdSet
    w = walk (λ i fd. p.rset fd) p.reads fd_clr s.used 0 s.client p.nready s.allset

    after : Server
    after = record s { client = w.slots; allset = w.state }

    served : w.acts ≡ answers (λ i fd. p.rset fd) p.reads (length s.client) 0 s.client
    served =
        walk-acts (λ i fd. p.rset fd) p.reads fd_clr s.used 0 s.client p.nready s.allset
          (omega (
            arith,
            ready_count-le (λ i fd. p.rset fd) p.reads s.used (length s.client) 0 s.client t.within,
          ))
        ∙ sym (
            answers-Unused (λ i fd. p.rset fd) p.reads s.used (length s.client) 0 s.client t.within
              t.idle)

    turned :
        select_pass listenfd p s
        ≡ next after (answers (λ i fd. p.rset fd) p.reads (length s.client) 0 s.client)
    turned = rw quiet (ap (next after) served)
