-- ===== src/Echo/Epoll.antt =====
-- network/echo/d5_epoll_echo_server.cpp. Closing a descriptor takes it off the interest list, as
-- epoll(7) says of a descriptor with one open file.
pub mod Watching
use cpp_example.Common.{
  ℕ, ◌==◌, Bool, true, false, Option, none, some, List, [], ◌∷◌, ◌++◌, if◌then◌else◌,
}
use cpp_example.Echo.Sys.{
  Errno, eintr, Got, got, failed, Accepted, accepted, refused, Act, write, close, watch, unwatch,
  Turn, next, exits, out_of_bounds, FdSet, fd_zero, fd_put, fd_clr, Setup, fails, serves,
}

pub record Server : Type 0 where
  pub watched : FdSet  -- the interest list
  pub sockets : FdSet  -- the open descriptors
  pub connfd : Option ℕ  -- the variable, `none` if negative; arbitrary before the first accept

unfoldable pub epoll_setup : Option ℕ → Bool → Option ℕ → Setup Server
epoll_setup none bound junk = fails 1
epoll_setup (some listenfd) false junk = fails 2
epoll_setup (some listenfd) true junk =
    serves listenfd (record {
      watched = fd_put listenfd fd_zero;
      sockets = fd_put listenfd fd_zero;
      connfd = junk;
    })

-- One of the ready events: its descriptor and whether EPOLLIN is set, with what accept or read
-- return if they are called for it.
pub record Event : Type 0 where
  pub fd : ℕ
  pub readable : Bool
  pub accept : Accepted
  pub read : Got

-- A connection that has ended or failed: the code removes `connfd` from the list, not the
-- descriptor that it closes.
unfoldable pub epoll_close : ℕ → Server → Server
epoll_close sockfd s = record s {
  watched = fd_clr sockfd (elim s.connfd [ none ↦ s.watched | some c ↦ fd_clr c s.watched ]);
  sockets = fd_clr sockfd s.sockets;
}

-- EPOLL_CTL_DEL of a negative descriptor fails and does nothing.
abbrev pub del_acts : Option ℕ → List Act
del_acts none = []
del_acts (some c) = unwatch c ∷ []

unfoldable pub epoll_event : ℕ → Event → Server → Turn Server
unfolding epoll_close
epoll_event listenfd e s =
    if listenfd == e.fd
    then elim e.accept [
      | refused eintr ↦ next (record s { connfd = none }) []
      | refused _ ↦ exits []
      | accepted connfd ↦
          next
            (record {
              watched = fd_put connfd s.watched;
              sockets = fd_put connfd s.sockets;
              connfd = some connfd;
            })
            (watch connfd ∷ [])
    ]
    else if e.readable
    then elim e.read [
      | got (b ∷ bs) ↦ next s (write e.fd (b ∷ bs) ∷ [])
      | _ ↦ next (epoll_close e.fd s) (del_acts s.connfd ++ close e.fd ∷ [])
    ]
    else next s []

-- The loop over the events that epoll_wait gave.
unfoldable pub epoll_events : ℕ → List Event → Server → Turn Server
epoll_events listenfd [] s = next s []
epoll_events listenfd (e ∷ es) s = elim (epoll_event listenfd e s) [
  | exits acts ↦ exits acts
  | out_of_bounds ↦ out_of_bounds
  | next s1 acts ↦ elim (epoll_events listenfd es s1) [
    | exits more ↦ exits (acts ++ more)
    | out_of_bounds ↦ out_of_bounds
    | next s2 more ↦ next s2 (acts ++ more)
  ]
]
