-- ===== src/Echo/Client/Alike.antt =====
-- network/echo: the epoll client against the poll client. epoll_wait reports the descriptors that
-- are watched and ready, the connection first here.
use cpp_example.Common.{
  ℕ, ◌&&◌, not, ◌≡◌, ◌≢◌, refl, ap, Bool, true, List, [], ◌∷◌, ◌++◌, arith, if◌then◌else◌,
}
use cpp_example.Echo.Sys.{
  Got, got, failed, Act, write, print, shutdown_wr, unwatch, close, watch, spawn, reaped,
}
use cpp_example.Echo.Client.{Pass, Step, run_client}
use cpp_example.Echo.Client.Select.{SelectState, select_cli_pass, read_sock}
use cpp_example.Echo.Client.Poll.{PollState, poll_stdin, poll_cli_pass}
use cpp_example.Echo.Client.Epoll.{EpollState, Event, epoll_stdin, epoll_cli_event, epoll_cli_pass}
use cpp_example.Echo.Client.Same.{IsSame, select_cli-poll_cli}

abbrev event_of : ℕ → Got → Event
event_of fd read = record { fd = fd; readable = true; read = read }

-- The events of a pass, if the standard input is watched or not.
abbrev pub events_of : ℕ → Pass → Bool → List Event
events_of sockfd p watched =
    (if p.sock_ready then event_of sockfd p.sock_read ∷ [] else [])
    ++ (if watched && p.stdin_ready then event_of 0 p.stdin_read ∷ [] else [])

-- What others see of the actions: not that a descriptor is no longer watched.
abbrev pub visible : List Act → List Act
visible [] = []
visible (unwatch fd ∷ acts) = visible acts
visible (a ∷ acts) = a ∷ visible acts

abbrev pub polling : Bool → PollState
polling eof = record { stdineof = eof; stdin_polled = not eof }

abbrev pub watching : Bool → EpollState
watching eof = record { stdineof = eof; stdin_watched = not eof }

visible-append : (xs ys : List Act) → visible (xs ++ ys) ≡ visible xs ++ visible ys
visible-append [] ys = refl
visible-append (unwatch fd ∷ xs) ys = visible-append xs ys
visible-append (write fd b ∷ xs) ys = ap (◌∷◌ (write fd b)) (visible-append xs ys)
visible-append (close fd ∷ xs) ys = ap (◌∷◌ (close fd)) (visible-append xs ys)
visible-append (shutdown_wr fd ∷ xs) ys = ap (◌∷◌ (shutdown_wr fd)) (visible-append xs ys)
visible-append (watch fd ∷ xs) ys = ap (◌∷◌ (watch fd)) (visible-append xs ys)
visible-append (spawn fd ∷ xs) ys = ap (◌∷◌ (spawn fd)) (visible-append xs ys)
visible-append (print b ∷ xs) ys = ap (◌∷◌ (print b)) (visible-append xs ys)
visible-append (reaped n ∷ xs) ys = ap (◌∷◌ (reaped n)) (visible-append xs ys)

-- A pass of the epoll client on the events of what it watches.
abbrev pub watched_pass : ℕ → Pass → EpollState → Step EpollState
watched_pass sockfd p u = epoll_cli_pass sockfd (events_of sockfd p u.stdin_watched) u

module _ (sockfd : ℕ) (ne : sockfd ≢ 0) where
  sock_event :
      (g : Got) (s : EpollState)
      → epoll_cli_event sockfd (event_of sockfd g) s ≡ record {
        state = s;
        acts = (read_sock g s.stdineof).0;
        status = (read_sock g s.stdineof).1;
      }
  unfolding epoll_cli_event read_sock
  sock_event (got []) s = ground arith
  sock_event (got (b ∷ bs)) s = ground arith
  sock_event (failed e) s = ground arith

  stdin_event :
      (g : Got) (s : EpollState) → epoll_cli_event sockfd (event_of 0 g) s ≡ epoll_stdin sockfd g s
  unfolding epoll_cli_event epoll_stdin
  stdin_event (got []) s = ground arith
  stdin_event (got (b ∷ bs)) s = ground arith
  stdin_event (failed e) s = ground arith

  -- One pass, from states that have seen as much of the input.
  record IsAlike (t : Step PollState) (u : Step EpollState) : Type 0 where
    acts : t.acts ≡ visible u.acts
    status : t.status ≡ u.status
    polls : t.state ≡ polling t.state.stdineof
    watches : u.state ≡ watching t.state.stdineof

  pass-IsAlike :
      (p : Pass) (eof : Bool)
      → IsAlike
          (poll_cli_pass sockfd p (polling eof))
          (epoll_cli_pass sockfd (events_of sockfd p (not eof)) (watching eof))
  unfolding poll_cli_pass epoll_cli_pass read_sock poll_stdin epoll_stdin
  pass-IsAlike p eof =
      let a = sock_event p.sock_read (watching eof) in
      let b = stdin_event p.stdin_read (watching eof) in
      record {
        acts = ground (arith, a, b);
        status = ground (arith, a, b);
        polls = ground (arith);
        watches = ground (arith, a, b);
      }

  run_alike :
      (ps : List Pass) (eof : Bool)
      → let r = run_client (watched_pass sockfd) ps (watching eof) in
        run_client (poll_cli_pass sockfd) ps (polling eof) ≡ (visible r.0, r.1)
  unfolding run_client
  run_alike [] eof = refl
  run_alike (p ∷ ps) eof =
      let t = poll_cli_pass sockfd p (polling eof) in
      let u = epoll_cli_pass sockfd (events_of sockfd p (not eof)) (watching eof) in
      let h = pass-IsAlike p eof in
      let rest = run_alike ps t.state.stdineof in
      let r = run_client (watched_pass sockfd) ps u.state in
      ground (arith, h.acts, h.status, h.polls, h.watches, rest, visible-append u.acts r.0)

-- The select, the poll and the epoll client, from states that have seen as much of the input, on a
-- connection other than descriptor 0 and on the same replies of the system, the epoll client being
-- told of what it watches, of the connection first: they write, print and shut down the same, in
-- the same order, and end alike, however many passes they make.
pub clients_alike :
    (sockfd : ℕ) (ps : List Pass) (s : SelectState) (eof : Bool)
    → sockfd ≢ 0
    → IsSame s (polling eof)
    → (run_client (select_cli_pass sockfd) ps s
        ≡ run_client (poll_cli_pass sockfd) ps (polling eof))
      × (let r = run_client (watched_pass sockfd) ps (watching eof) in
          run_client (poll_cli_pass sockfd) ps (polling eof) ≡ (visible r.0, r.1))
clients_alike sockfd ps s eof ne same =
    (select_cli-poll_cli sockfd ps s (polling eof) ne same, run_alike sockfd ne ps eof)
