-- ===== src/Libev/Relay.antt =====
-- libev/demo1_echo_client.cpp: what is passed on, over any run.
use cpp_example.Common.{
  ℕ, ◌≡◌, refl, ap, ◌∙◌, true, false, some, List, [], ◌∷◌, map, inl, inr, Bool-cases, not,
  replicate, if◌then◌else◌, arith,
}
use cpp_example.Common.Outcome.{done}
use cpp_example.Echo.Sys.{
  writes_of, prints_of, closes_of, eagain, eintr, other_error, Got, got, failed, Act, write, close,
  print,
}
use cpp_example.Libev.Server.{buffer_size}
use cpp_example.Libev.Client.{
  Client, stdin_cb, conn_cb, stop_connection, Event, typed, arrived, dispatch, client_run,
  Connected, client_setup, runs, connects, in_progress, connect_fails, use_connection,
}
use cpp_example.Libev.Transcript.{
  FitsBuffer, AllFit, IsClear, typed_messages, ends, arrived_messages, connection_ends,
}
use cpp_example.Libev.Passing.{
  pass_on_lem, IsRelayed, skipped, unread, stopped_here, dispatch_on, dispatch_off, run_first,
}

abbrev Relays : List Event → Type 0
Relays es =
    (c : Client)
    → IsClear c
    → (c' : Client) × (acts : List Act) × (client_run es c ≡ done (c', acts))
      × IsRelayed c es c' acts

over :
    (reply : Got) (es : List Event) (c : Client)
    → Relays es
    → IsClear c
    → c.watching ≡ true
    → conn_cb true reply c ≡ done (stop_connection c)
    → ends reply ≡ true
    → (c' : Client) × (acts : List Act) × (client_run (arrived reply ∷ es) c ≡ done (c', acts))
      × IsRelayed c (arrived reply ∷ es) c' acts
unfolding dispatch
over reply es c later v on e x =
    let (c', acts, e', r) =
      later (record c { watching = false }) (record { clear = v.clear; empty = v.empty }) in
    (
      c',
      close c.connfd ∷ acts,
      run_first _ es c _ c' _ acts (dispatch_on reply c on ∙ e) e',
      stopped_here c c' reply es acts on x r,
    )

read_arrived :
    (reply : Got) (es : List Event) (c : Client)
    → Relays es
    → IsClear c
    → c.watching ≡ true
    → FitsBuffer (arrived reply)
    → (c' : Client) × (acts : List Act) × (client_run (arrived reply ∷ es) c ≡ done (c', acts))
      × IsRelayed c (arrived reply ∷ es) c' acts
unfolding conn_cb
read_arrived (got []) es c later v on fit = over (got []) es c later v on refl refl
read_arrived (failed eintr) es c later v on fit = over (failed eintr) es c later v on refl refl
read_arrived (failed other_error) es c later v on fit =
    over (failed other_error) es c later v on refl refl
read_arrived (failed eagain) es c later v on fit =
    let (c', acts, e, r) = later c v in
    (
      c',
      acts,
      run_first _ es c c c' [] acts (dispatch_on _ c on) e,
      skipped c c' _ es acts refl refl refl r,
    )
read_arrived (got (b ∷ bs)) es c later v on fit =
    let (c', acts, e, r) = later c v in
    (
      c',
      print (b ∷ bs) ∷ acts,
      run_first _ es c c c' _ acts (dispatch_on _ c on ∙ pass_on_lem print (b ∷ bs) c v fit) e,
      record {
        clear = r.clear;
        same_fd = r.same_fd;
        written = r.written;
        printed = ap (◌∷◌ (b ∷ bs)) r.printed ∙ rw on refl;
        closed = r.closed;
        stopped = r.stopped;
      },
    )

relayed : (es : List Event) → AllFit es → Relays es
unfolding client_run dispatch stdin_cb
relayed [] fits c v = (
  c,
  [],
  refl,
  record {
    clear = v;
    same_fd = refl;
    written = refl;
    printed = ground arith;
    closed = ground arith;
    stopped = ground arith;
  },
)
relayed (typed (got msg) ∷ es) (fit, fits) c v =
    let (c', acts, e, r) = relayed es fits c v in
    (
      c',
      write c.connfd msg ∷ acts,
      run_first (typed (got msg)) es c c c' _ acts (pass_on_lem (write c.connfd) msg c v fit) e,
      record {
        clear = r.clear;
        same_fd = r.same_fd;
        written = ap (λ ms. (c.connfd, msg) ∷ ms) r.written;
        printed = r.printed;
        closed = r.closed;
        stopped = r.stopped;
      },
    )
relayed (typed (failed x) ∷ es) (fit, fits) c v =
    let (c', acts, e, r) = relayed es fits c v in
    (c', acts, rw e refl, skipped c c' _ es acts refl refl refl r)
relayed (arrived reply ∷ es) (fit, fits) c v = elim (Bool-cases c.watching) [
  | inl on ↦ read_arrived reply es c (relayed es fits) v on fit
  | inr off ↦
      let (c', acts, e, r) = relayed es fits c v in
      (
        c',
        acts,
        run_first (arrived reply) es c c c' [] acts (dispatch_off reply c off) e,
        unread c c' reply es acts off r,
      )
]

-- From the start of the client, over any reads of at most 1024 bytes that the loop reports: it
-- never accesses memory outside the buffer, writes what is typed to the server message by message,
-- also after the connection has ended, prints what arrives in the same way up to that end, and
-- closes the connection then and only then, once.
pub client_relays :
    (connfd : ℕ) (result : Connected) (c : Client) (es : List Event)
    → client_setup (some connfd) result true ≡ runs c
    → AllFit es
    → (c' : Client) × (acts : List Act) × (client_run es c ≡ done (c', acts))
      × (writes_of acts ≡ map (λ msg. (connfd, msg)) (typed_messages es))
      × (prints_of acts ≡ arrived_messages es)
      × (closes_of acts ≡ (if connection_ends es then connfd ∷ [] else []))
      × (c'.watching ≡ not (connection_ends es))
unfolding client_setup use_connection
client_relays connfd result c es e fits =
    let (c', acts, run, r) = relayed es fits begin (record { clear = refl; empty = refl }) in
    (c', acts, rw (← same result e) run, r.written, r.printed, r.closed, r.stopped)
  where
    begin : Client
    begin = record { chars = replicate buffer_size 0; len = 0; connfd = connfd; watching = true }

    same : (result : Connected) → client_setup (some connfd) result true ≡ runs c → begin ≡ c
    same connects h = cc
    same in_progress h = cc
    same connect_fails h = cc
