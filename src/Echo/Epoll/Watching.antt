-- ===== src/Echo/Epoll/Watching.antt =====
-- network/echo/d5_epoll_echo_server.cpp: which open connections the server still listens to.
use cpp_example.Common.{ℕ, ◌≡◌, refl, Bool, true, false, List, [], ◌∷◌, arith, some}
use cpp_example.Echo.Sys.{Got, got, failed, Act, Turn, next, exits, out_of_bounds}
use cpp_example.Echo.Epoll.{Server, Event, epoll_event, epoll_events}

-- Every descriptor on the interest list is open.
abbrev pub WatchesOpen : Server → Type 0
WatchesOpen s = (x : ℕ) → s.watched x ≡ true → s.sockets x ≡ true

-- Every open descriptor is on the interest list.
abbrev pub WatchesAll : Server → Type 0
WatchesAll s = (x : ℕ) → s.sockets x ≡ true → s.watched x ≡ true

epoll_event-WatchesOpen :
    (listenfd : ℕ) (e : Event) (s s' : Server) (acts : List Act)
    → WatchesOpen s
    → epoll_event listenfd e s ≡ next s' acts
    → WatchesOpen s'
unfolding epoll_event
epoll_event-WatchesOpen listenfd e s s' acts w h x = ground (arith, w x)

-- A pass that goes on past an event did so with both the event and the rest.
epoll_events-cons :
    (listenfd : ℕ) (e : Event) (es : List Event) (s s' : Server) (acts : List Act)
    → epoll_events listenfd (e ∷ es) s ≡ next s' acts
    → (s1 : Server) × (first : List Act) × (more : List Act) × (epoll_event listenfd e s
        ≡ next s1 first)
      × (epoll_events listenfd es s1 ≡ next s' more)
unfolding epoll_events
epoll_events-cons listenfd e es s s' acts h = by_event (epoll_event listenfd e s) refl
  where
    by_rest :
        (s1 : Server) (first : List Act) (u : Turn Server)
        → epoll_event listenfd e s ≡ next s1 first
        → epoll_events listenfd es s1 ≡ u
        → (s1 : Server) × (first : List Act) × (more : List Act) × (epoll_event listenfd e s
            ≡ next s1 first)
          × (epoll_events listenfd es s1 ≡ next s' more)
    by_rest s1 first (exits more) eq eq2 = absurd (ground arith)
    by_rest s1 first out_of_bounds eq eq2 = absurd (ground arith)
    by_rest s1 first (next s2 more) eq eq2 = (s1, first, more, eq, ground arith)

    by_event :
        (t : Turn Server)
        → epoll_event listenfd e s ≡ t
        → (s1 : Server) × (first : List Act) × (more : List Act) × (epoll_event listenfd e s
            ≡ next s1 first)
          × (epoll_events listenfd es s1 ≡ next s' more)
    by_event (exits first) eq = absurd (ground arith)
    by_event out_of_bounds eq = absurd (ground arith)
    by_event (next s1 first) eq = by_rest s1 first (epoll_events listenfd es s1) eq refl

-- If the interest list holds open descriptors only, then it does after a pass that goes on, however
-- its events come.
pub epoll_events-WatchesOpen :
    (listenfd : ℕ) (es : List Event) (s s' : Server) (acts : List Act)
    → WatchesOpen s
    → epoll_events listenfd es s ≡ next s' acts
    → WatchesOpen s'
unfolding epoll_events
epoll_events-WatchesOpen listenfd [] s s' acts w h = let same : s ≡ s' = cc in rw (← same) w
epoll_events-WatchesOpen listenfd (e ∷ es) s s' acts w h =
    let (s1, first, more, eq, rest) = epoll_events-cons listenfd e es s s' acts h in
    epoll_events-WatchesOpen listenfd es s1 s' more
      (epoll_event-WatchesOpen listenfd e s s1 first w eq) rest

-- Whether a read ends the connection.
abbrev pub ends : Got → Bool
ends (got []) = true
ends (got (b ∷ bs)) = false
ends (failed e) = true

-- If every open descriptor is watched, then it is after an event that goes on and that ends a
-- connection only where that is the one accepted last.
pub epoll_event-WatchesAll :
    (listenfd : ℕ) (e : Event) (s s' : Server) (acts : List Act)
    → WatchesAll s
    → (ends e.read ≡ true → s.connfd ≡ some e.fd)
    → epoll_event listenfd e s ≡ next s' acts
    → WatchesAll s'
unfolding epoll_event
epoll_event-WatchesAll listenfd e s s' acts w last h x = ground (arith, w x)
