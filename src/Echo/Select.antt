-- ===== src/Echo/Select.antt =====
-- network/echo/d3_select_echo_server.cpp. `used` is maxidx + 1, and a negative countdown, as after
-- a failed select, is 0: both leave the loop at the same place.
pub mod Invariant
pub mod Service
use cpp_example.Common.{
  ℕ, zero, suc, ◌+◌, ◌-◌, ◌==◌, ltb, Bool, true, false, Option, none, some, List, [], ◌∷◌, ◌++◌,
  set, replicate, if◌then◌else◌,
}
use cpp_example.Echo.Sys.{
  Errno, eintr, Got, Accepted, accepted, refused, Act, Turn, next, exits, out_of_bounds, FdSet,
  fd_zero, fd_put, fd_clr, Setup, fails, serves,
}
use cpp_example.Echo.Slots.{Walked, walk, find_slot}

abbrev pub fd_setsize : ℕ
fd_setsize = 1024

pub record Server : Type 0 where
  pub client : List (Option ℕ)
  pub allset : FdSet
  pub maxfd : ℕ
  pub used : ℕ

-- memset(client, -1, FD_SETSIZE) clears 1024 bytes, 256 entries; `junk` is what stands in the
-- other entries of the array.
unfoldable pub select_setup : Option ℕ → Bool → List (Option ℕ) → Setup Server
select_setup none bound junk = fails 1
select_setup (some listenfd) false junk = fails 2
select_setup (some listenfd) true junk = serves listenfd (record {
  client = replicate 256 none ++ junk;
  allset = fd_put listenfd fd_zero;
  maxfd = listenfd;
  used = 0;
})

-- What select, accept and the reads of one pass return; a read is named by the entry's index.
pub record Pass : Type 0 where
  pub rset : FdSet
  pub nready : ℕ
  pub accept : Accepted
  pub reads : ℕ → Got

-- A new client takes the first free entry, or the server ends with err_quit("too many clients").
-- FD_SET has room for the descriptors below FD_SETSIZE and looks at no bound.
unfoldable pub add_client : ℕ → Server → Turn Server
add_client connfd s =
    let i = find_slot s.client in
    if i == fd_setsize
    then exits []
    else (if ltb connfd fd_setsize
        then next
            (record {
              client = set s.client i (some connfd);
              allset = fd_put connfd s.allset;
              maxfd = if ltb s.maxfd connfd then connfd else s.maxfd;
              used = if ltb s.used (i + 1) then i + 1 else s.used;
            })
            []
        else out_of_bounds)

unfoldable pub serve_clients : Pass → ℕ → Server → Turn Server
serve_clients p nready s =
    let w = walk (λ i fd. p.rset fd) p.reads fd_clr s.used 0 s.client nready s.allset in
    next (record s { client = w.slots; allset = w.state }) w.acts

unfoldable pub accept_client : ℕ → Pass → Server → Turn Server
accept_client connfd p s = elim (add_client connfd s) [
  | exits acts ↦ exits acts
  | out_of_bounds ↦ out_of_bounds
  | next s1 _ ↦ if p.nready - 1 == 0 then next s1 [] else serve_clients p (p.nready - 1) s1
]

-- One pass of the loop.
unfoldable pub select_pass : ℕ → Pass → Server → Turn Server
unfolding accept_client
select_pass listenfd p s =
    if p.rset listenfd
    then elim p.accept [
      | refused eintr ↦ next s []
      | refused _ ↦ exits []
      | accepted connfd ↦ accept_client connfd p s
    ]
    else serve_clients p p.nready s
