-- ===== src/Libev/Passing.antt =====
-- libev/demo1_echo_client.cpp: what one callback passes on.
use cpp_example.Common.{
  ℕ, ◌≤◌, ◌≡◌, refl, sym, ap, ◌∙◌, ◌-◌, true, false, List, [], ◌∷◌, ◌++◌, map, not, ◌&&◌, length,
  replicate, take-append_length, length-append, if◌then◌else◌, arith,
}
use cpp_example.Common.Outcome.{done}
use cpp_example.Common.Buffers.{read_at-take, write_at-replicate}
use cpp_example.Echo.Sys.{writes_of, prints_of, closes_of, Got, Act, close}
use cpp_example.Libev.Server.{buffer_size}
use cpp_example.Libev.Client.{Client, pass_on, conn_cb, Event, arrived, dispatch, client_run}
use cpp_example.Libev.Transcript.{IsClear, typed_messages, ends, arrived_messages, connection_ends}

pub pass_on_lem :
    (to : List ℕ → Act) (msg : List ℕ) (c : Client)
    → IsClear c
    → length msg ≤ buffer_size
    → pass_on to msg c ≡ done (c, to msg ∷ [])
unfolding pass_on
pass_on_lem to msg c v fits = rw v.clear (
    rw (write_at-replicate buffer_size msg fits) (
      rw (read_at-take (msg ++ replicate (buffer_size - length msg) 0) (length msg) enough) (
        rw
          (
            take-append_length msg (replicate (buffer_size - length msg) 0),
            sym v.clear,
            sym v.empty,
          )
          refl)))
  where
    enough : length msg ≤ length (msg ++ replicate (buffer_size - length msg) 0)
    enough = omega (arith, length-append msg (replicate (buffer_size - length msg) 0))

pub record IsRelayed (c : Client) (es : List Event) (c' : Client) (acts : List Act) : Type 0 where
  pub clear : IsClear c'
  pub same_fd : c'.connfd ≡ c.connfd
  pub written : writes_of acts ≡ map (λ msg. (c.connfd, msg)) (typed_messages es)
  pub printed : prints_of acts ≡ (if c.watching then arrived_messages es else [])
  pub closed : closes_of acts ≡ (if c.watching && connection_ends es then c.connfd ∷ [] else [])
  pub stopped : c'.watching ≡ c.watching && not (connection_ends es)

-- A callback that leaves the client as it is and does nothing, for an event of no content.
pub skipped :
    (c c' : Client) (e : Event) (es : List Event) (acts : List Act)
    → typed_messages (e ∷ es) ≡ typed_messages es
    → arrived_messages (e ∷ es) ≡ arrived_messages es
    → connection_ends (e ∷ es) ≡ connection_ends es
    → IsRelayed c es c' acts
    → IsRelayed c (e ∷ es) c' acts
skipped c c' e es acts p q x r = record {
  clear = r.clear;
  same_fd = r.same_fd;
  written = rw p r.written;
  printed = rw q r.printed;
  closed = rw x r.closed;
  stopped = rw x r.stopped;
}

-- Nothing that arrives is read once the watcher is stopped.
pub unread :
    (c c' : Client) (reply : Got) (es : List Event) (acts : List Act)
    → c.watching ≡ false
    → IsRelayed c es c' acts
    → IsRelayed c (arrived reply ∷ es) c' acts
unread c c' reply es acts e r = record {
  clear = r.clear;
  same_fd = r.same_fd;
  written = r.written;
  printed = r.printed ∙ rw e refl;
  closed = r.closed ∙ rw e refl;
  stopped = r.stopped ∙ rw e refl;
}

pub stopped_here :
    (c c' : Client) (reply : Got) (es : List Event) (acts : List Act)
    → c.watching ≡ true
    → ends reply ≡ true
    → IsRelayed (record c { watching = false }) es c' acts
    → IsRelayed c (arrived reply ∷ es) c' (close c.connfd ∷ acts)
stopped_here c c' reply es acts e x r = record {
  clear = r.clear;
  same_fd = r.same_fd;
  written = r.written;
  printed = r.printed ∙ rw (e, x) refl;
  closed = ap (◌∷◌ c.connfd) r.closed ∙ rw (e, x) refl;
  stopped = r.stopped ∙ rw (e, x) refl;
}

pub dispatch_on :
    (reply : Got) (c : Client)
    → c.watching ≡ true
    → dispatch (arrived reply) c ≡ conn_cb true reply c
unfolding dispatch
dispatch_on reply c on = ap (λ b. if b then conn_cb true reply c else done (c, [])) on

pub dispatch_off :
    (reply : Got) (c : Client) → c.watching ≡ false → dispatch (arrived reply) c ≡ done (c, [])
unfolding dispatch
dispatch_off reply c off = ap (λ b. if b then conn_cb true reply c else done (c, [])) off

pub run_first :
    (e : Event) (es : List Event) (c c1 c' : Client) (first rest : List Act)
    → dispatch e c ≡ done (c1, first)
    → client_run es c1 ≡ done (c', rest)
    → client_run (e ∷ es) c ≡ done (c', first ++ rest)
unfolding client_run
run_first e es c c1 c' first rest p q = rw p (rw q refl)
