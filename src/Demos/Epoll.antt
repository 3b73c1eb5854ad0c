-- ===== src/Demos/Epoll.antt =====
-- network/demo3_epoll.cpp: two global buffers for all clients.
use cpp_example.Common.{
  ℕ, ◌==◌, Bool, true, false, Option, none, some, List, [], ◌∷◌, ◌++◌, replicate, if◌then◌else◌,
}
use cpp_example.Common.Outcome.{Outcome, done, ◌>>=◌, write_at, printed_string}
use cpp_example.Echo.Sys.{Got, got, failed, Act, write, print}

abbrev pub buffer_length : ℕ
buffer_length = 8192

-- The events that a descriptor is registered for.
pub data Watch : Type 0 where
  input input_edge output : Watch

pub record Server : Type 0 where
  pub rbuffer : List ℕ
  pub wbuffer : List ℕ
  pub watched : ℕ → Option Watch

abbrev pub register : ℕ → Watch → Server → Server
register fd w s = record s { watched = λ x. if x == fd then some w else s.watched x }

-- Main up to the loop: -1, -2, or the loop runs.
pub data Start : Type 0 where
  minus_one minus_two : Start
  loops : ℕ → Server → Start

unfoldable pub epoll_start : Option ℕ → Bool → Start
epoll_start none bound = minus_one
epoll_start (some listenfd) false = minus_two
epoll_start (some listenfd) true = loops listenfd (
    register listenfd input (record {
      rbuffer = replicate buffer_length 0;
      wbuffer = replicate buffer_length 0;
      watched = λ x. none;
    }))

-- An entry of `events`, with what accept and recv return when they are called.
pub record Event : Type 0 where
  pub fd : ℕ
  pub readable : Bool
  pub writable : Bool
  pub accepted : Option ℕ
  pub received : Got

-- The state and the acts; `false` for the break, which drops the events behind.
abbrev pub Handled : Type 0
Handled = Server × List Act × Bool

-- Neither the end of the stream nor an error is acted upon.
unfoldable pub read_event : ℕ → Got → Server → Outcome Handled
read_event eventfd (failed e) s = done (s, [], true)
read_event eventfd (got []) s = done (s, [], true)
read_event eventfd (got (b ∷ bs)) s = do
  rbuffer ← write_at s.rbuffer 0 (b ∷ bs)
  line ← printed_string rbuffer
  done (
    register eventfd output (record s { rbuffer = rbuffer; wbuffer = rbuffer }),
    print line ∷ [],
    true,
  )

-- The whole buffer is sent, however long the message was.
unfoldable pub write_event : ℕ → Server → Handled
write_event eventfd s = (register eventfd input s, write eventfd s.wbuffer ∷ [], true)

unfoldable pub handle_event : ℕ → Event → Server → Outcome Handled
handle_event listenfd e s =
    if listenfd == e.fd
    then elim e.accepted [
      | none ↦ done (s, [], false)
      | some clientfd ↦ done (register clientfd input_edge s, [], true)
    ]
    else (if e.readable
        then read_event e.fd e.received s
        else (if e.writable then done (write_event e.fd s) else done (s, [], true)))

-- The events of one epoll_wait.
unfoldable pub handle_events : ℕ → List Event → Server → Outcome (Server × List Act)
handle_events listenfd [] s = done (s, [])
handle_events listenfd (e ∷ es) s = handle_event listenfd e s >>= λ first.
    let rest = handle_events listenfd es first.0 in
    if first.2 then (rest >>= λ r. done (r.0, first.1 ++ r.1)) else done (first.0, first.1)
