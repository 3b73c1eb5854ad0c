-- ===== src/Echo/Poll.antt =====
-- network/echo/d4_poll_echo_server.cpp. `client` holds the entries from index 1 on, entry 0 being
-- the listening descriptor; `maxidx` is thus also the number of them in use.
pub mod Service
use cpp_example.Common.{
  ℕ, zero, suc, ◌+◌, ◌-◌, ◌==◌, ltb, Bool, true, false, Option, none, some, List, [], set,
  replicate, if◌then◌else◌,
}
use cpp_example.Echo.Sys.{
  eintr, Got, Accepted, accepted, refused, Turn, next, exits, Setup, fails, serves,
}
use cpp_example.Echo.Slots.{Walked, walk, find_slot}

abbrev pub max_poll_size : ℕ
max_poll_size = 4096

pub record Server : Type 0 where
  pub client : List (Option ℕ)
  pub maxfd : ℕ
  pub maxidx : ℕ

unfoldable pub poll_setup : Option ℕ → Bool → Setup Server
poll_setup none bound = fails 1
poll_setup (some listenfd) false = fails 2
poll_setup (some listenfd) true =
    serves listenfd
      (record { client = replicate (max_poll_size - 1) none; maxfd = listenfd; maxidx = 0 })

-- What poll, accept and the reads of one pass return: whether POLLRDNORM stands in `revents` of
-- an entry, also of one that this poll did not look at, and what a read for an entry gives.
pub record Pass : Type 0 where
  pub revents : ℕ → Bool
  pub nready : ℕ
  pub accept : Accepted
  pub reads : ℕ → Got

unfoldable pub poll_add : ℕ → Server → Option Server
poll_add connfd s =
    let i = find_slot s.client + 1 in
    if i == max_poll_size
    then none
    else some (record {
      client = set s.client (find_slot s.client) (some connfd);
      maxfd = if ltb s.maxfd connfd then connfd else s.maxfd;
      maxidx = if ltb s.maxidx i then i else s.maxidx;
    })

unfoldable pub poll_serve : Pass → ℕ → Server → Turn Server
poll_serve p nready s =
    let w = walk (λ i fd. p.revents i) p.reads (λ fd u. u) s.maxidx 1 s.client nready (tt {0}) in
    next (record s { client = w.slots }) w.acts

unfoldable pub poll_accept : ℕ → Pass → Server → Turn Server
poll_accept connfd p s = elim (poll_add connfd s) [
  | none ↦ exits []
  | some s1 ↦ if p.nready - 1 == 0 then next s1 [] else poll_serve p (p.nready - 1) s1
]

-- One pass of the loop.
unfoldable pub poll_pass : Pass → Server → Turn Server
unfolding poll_accept
poll_pass p s =
    if p.revents 0
    then elim p.accept [
      | refused eintr ↦ next s []
      | refused _ ↦ exits []
      | accepted connfd ↦ poll_accept connfd p s
    ]
    else poll_serve p p.nready s
