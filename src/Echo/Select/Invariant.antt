-- ===== src/Echo/Select/Invariant.antt =====
-- network/echo/d3_select_echo_server.cpp: the array, the set and the two bounds agree.
use cpp_example.Common.{
  Fresh, Distinct, ℕ, ◌+◌, ◌-◌, ◌≤◌, ◌<◌, ◌≡◌, ◌≢◌, refl, ap, ◌∙◌, ◌==◌, ltb, Bool, true, false,
  List, [], ◌∷◌, All, arith, if◌then◌else◌, none, some, Bool-cases, inl, inr, ◌⊎◌, length, set,
  length-set, replicate,
}
use cpp_example.Echo.Sys.{
  eintr, eagain, other_error, Accepted, accepted, refused, Act, Turn, next, exits, out_of_bounds,
  fd_zero, fd_put, fd_clr, serves,
}
use cpp_example.Echo.Slots.{walk, find_slot}
use cpp_example.Echo.Slots.Order.{fds_of, walk-All, walk-Distinct, length-walk}
use cpp_example.Echo.Slots.Tracking.{Tracks, walk-Tracks}
use cpp_example.Echo.Slots.Entries.{
  find_slot-le, contains-set_slot, All-set_slot, Distinct-set_slot, Unused, Unused-mono, Unused-set,
  drop-walk,
}
use cpp_example.Echo.Select.{
  fd_setsize, Server, select_setup, Pass, add_client, serve_clients, accept_client, select_pass,
}

-- `allset` holds the listening descriptor and those of the array, each client stands there once,
-- none from `maxidx + 1` on, `maxfd` bounds them all, and the set has room for them.
pub record IsTracked (listenfd : ℕ) (s : Server) : Type 0 where
  pub size : length s.client ≡ fd_setsize
  pub within : s.used ≤ length s.client
  pub tracks : Tracks (fd_put listenfd fd_zero) s.client s.allset
  pub distinct : Distinct (fds_of s.client)
  pub outside : All (λ fd. fd_put listenfd fd_zero fd ≡ false) (fds_of s.client)
  pub idle : Unused s.used s.client
  pub bounded : All (λ fd. fd ≤ s.maxfd) (fds_of s.client)
  pub listens : listenfd ≤ s.maxfd
  pub settable : s.maxfd < fd_setsize

pub serve_clients-IsTracked :
    (listenfd nready : ℕ) (p : Pass) (s s' : Server) (acts : List Act)
    → IsTracked listenfd s
    → serve_clients p nready s ≡ next s' acts
    → IsTracked listenfd s'
unfolding serve_clients
serve_clients-IsTracked listenfd nready p s s' acts t e = rw (← same) (record {
  size = length-walk ready p.reads fd_clr s.used 0 s.client nready s.allset ∙ t.size;
  within =
      omega (arith, t.within, length-walk ready p.reads fd_clr s.used 0 s.client nready s.allset);
  tracks =
      walk-Tracks ready p.reads (fd_put listenfd fd_zero) s.used 0 s.client nready s.allset
        t.distinct t.outside t.tracks;
  distinct = walk-Distinct ready p.reads fd_clr s.used 0 s.client nready s.allset t.distinct;
  outside = walk-All ready p.reads fd_clr _ s.used 0 s.client nready s.allset t.outside;
  idle = ap fds_of (drop-walk ready p.reads fd_clr s.used 0 s.client nready s.allset) ∙ t.idle;
  bounded = walk-All ready p.reads fd_clr _ s.used 0 s.client nready s.allset t.bounded;
  listens = t.listens;
  settable = t.settable;
})
  where
    ready : ℕ → ℕ → Bool
    ready i fd = p.rset fd

    same :
        record s {
          client = (walk ready p.reads fd_clr s.used 0 s.client nready s.allset).slots;
          allset = (walk ready p.reads fd_clr s.used 0 s.client nready s.allset).state;
        }
        ≡ s'
    same = cc

All-mono : (m n : ℕ) (l : List ℕ) → m ≤ n → All (λ x. x ≤ m) l → All (λ x. x ≤ n) l
All-mono m n [] h a = tt
All-mono m n (x ∷ xs) h a = (omega arith, All-mono m n xs h a.1)

add_client-IsTracked :
    (listenfd fd : ℕ) (s s' : Server) (acts : List Act)
    → IsTracked listenfd s
    → Fresh fd (fds_of s.client)
    → fd ≢ listenfd
    → add_client fd s ≡ next s' acts
    → IsTracked listenfd s'
unfolding add_client
add_client-IsTracked listenfd fd s s' acts t fresh other e = elim (Bool-cases (i == fd_setsize)) [
  | inl full ↦ absurd (ground arith)
  | inr room ↦
      let there : i < length s.client = ground (arith, find_slot-le s.client, t.size) in
      rw (← same room) (record {
        size = length-set s.client i (some fd) ∙ t.size;
        within = ground (arith, length-set s.client i (some fd), t.within);
        tracks = λ x. ground (arith, t.tracks x, contains-set_slot s.client fd x there);
        distinct = Distinct-set_slot s.client fd fresh t.distinct;
        outside = All-set_slot _ s.client fd (ground arith) t.outside;
        idle =
            Unused-set used i s.client (some fd) (ground arith)
              (Unused-mono s.used used s.client (ground arith) t.idle);
        bounded =
            All-set_slot (λ x. x ≤ maxfd) s.client fd (ground arith)
              (All-mono s.maxfd maxfd _ (ground arith) t.bounded);
        listens = ground (arith, t.listens);
        settable = ground (arith, t.settable);
      })
]
  where
    i : ℕ
    i = find_slot s.client

    used : ℕ
    used = if ltb s.used (i + 1) then i + 1 else s.used

    maxfd : ℕ
    maxfd = if ltb s.maxfd fd then fd else s.maxfd

    same :
        (i == fd_setsize) ≡ false
        → record {
          client = set s.client i (some fd);
          allset = fd_put fd s.allset;
          maxfd = maxfd;
          used = used;
        }
          ≡ s'
    same room = ground arith

-- The server starts tracked, if the set has room for the listening descriptor and the entries that
-- memset does not reach happen to be negative: it clears 256 of the 1024.
pub select_setup-IsTracked :
    (listenfd : ℕ)
    → listenfd < fd_setsize
    → (s : Server) × (select_setup (some listenfd) true (replicate 768 none) ≡ serves listenfd s)
      × IsTracked listenfd s
unfolding select_setup
select_setup-IsTracked listenfd room = (
  _,
  refl,
  record {
    size = refl;
    within = omega arith;
    tracks = λ x. ground arith;
    distinct = tt;
    outside = tt;
    idle = refl;
    bounded = tt;
    listens = omega arith;
    settable = room;
  },
)

accept_client-IsTracked :
    (listenfd fd : ℕ) (p : Pass) (s s' : Server) (acts : List Act)
    → IsTracked listenfd s
    → Fresh fd (fds_of s.client)
    → fd ≢ listenfd
    → accept_client fd p s ≡ next s' acts
    → IsTracked listenfd s'
unfolding accept_client
accept_client-IsTracked listenfd fd p s s' acts t fresh other e = by_turn (add_client fd s) refl
  where
    by_turn : (turn : Turn Server) → add_client fd s ≡ turn → IsTracked listenfd s'
    by_turn (exits done) full = absurd (ground arith)
    by_turn out_of_bounds outside = absurd (ground arith)
    by_turn (next s1 none_yet) added =
        let t1 = add_client-IsTracked listenfd fd s s1 none_yet t fresh other added in
        elim (Bool-cases (p.nready - 1 == 0)) [
          | inl last ↦ let same : s1 ≡ s' = ground arith in rw (← same) t1
          | inr more ↦
              serve_clients-IsTracked listenfd (p.nready - 1) p s1 s' acts t1 (ground arith)
        ]

passed-IsTracked :
    (listenfd : ℕ) (p : Pass) (s s' : Server) (acts : List Act)
    → IsTracked listenfd s
    → ((fd : ℕ) → p.accept ≡ accepted fd → Fresh fd (fds_of s.client) × (fd ≢ listenfd))
    → select_pass listenfd p s ≡ next s' acts
    → IsTracked listenfd s'
unfolding select_pass
passed-IsTracked listenfd p s s' acts t fresh e = elim (Bool-cases (p.rset listenfd)) [
  | inr quiet ↦ serve_clients-IsTracked listenfd p.nready p s s' acts t (ground arith)
  | inl asked ↦ by_accept p.accept refl asked
]
  where
    by_accept : (a : Accepted) → p.accept ≡ a → p.rset listenfd ≡ true → IsTracked listenfd s'
    by_accept (refused eintr) h asked = let same : s ≡ s' = ground arith in rw (← same) t
    by_accept (refused eagain) h asked = absurd (ground arith)
    by_accept (refused other_error) h asked = absurd (ground arith)
    by_accept (accepted fd) h asked =
        accept_client-IsTracked listenfd fd p s s' acts t (fresh fd h).0 (fresh fd h).1
          (ground arith)

within_set :
    (listenfd : ℕ) (p : Pass) (s : Server)
    → ((fd : ℕ) → p.accept ≡ accepted fd → fd < fd_setsize)
    → select_pass listenfd p s ≢ out_of_bounds
unfolding select_pass accept_client add_client serve_clients
within_set listenfd p s small e = by_accept p.accept refl
  where
    by_accept : (a : Accepted) → p.accept ≡ a → ⊥
    by_accept (refused eintr) h = ground arith
    by_accept (refused eagain) h = ground arith
    by_accept (refused other_error) h = ground arith
    by_accept (accepted fd) h = ground (arith, small fd h)

outside_set :
    (listenfd fd : ℕ) (p : Pass) (s : Server)
    → p.rset listenfd ≡ true
    → p.accept ≡ accepted fd
    → fd_setsize ≤ fd
    → (select_pass listenfd p s ≡ out_of_bounds) ⊎ (select_pass listenfd p s ≡ exits [])
unfolding select_pass accept_client add_client
outside_set listenfd fd p s asked h large = elim (Bool-cases (find_slot s.client == fd_setsize)) [
  | inl full ↦ inr (ground arith)
  | inr room ↦ inl (ground arith)
]

-- A pass of a tracked server, where accept gives a descriptor that is not in use: if it goes on, it
-- keeps the server tracked, whatever is ready, is read or is accepted; it writes outside of the set
-- only if accept gives a descriptor that the set has no room for; and if it does, the pass writes
-- outside of the set or ends the server, which is full.
pub select_pass-IsTracked :
    (listenfd : ℕ) (p : Pass) (s : Server)
    → IsTracked listenfd s
    → ((fd : ℕ) → p.accept ≡ accepted fd → Fresh fd (fds_of s.client) × (fd ≢ listenfd))
    → ((s' : Server) (acts : List Act)
        → select_pass listenfd p s ≡ next s' acts
        → IsTracked listenfd s')
      × (((fd : ℕ) → p.accept ≡ accepted fd → fd < fd_setsize)
          → select_pass listenfd p s ≢ out_of_bounds)
      × ((fd : ℕ)
          → p.rset listenfd ≡ true
          → p.accept ≡ accepted fd
          → fd_setsize ≤ fd
          → (select_pass listenfd p s ≡ out_of_bounds) ⊎ (select_pass listenfd p s ≡ exits []))
select_pass-IsTracked listenfd p s t fresh = (
  λ s' acts e. passed-IsTracked listenfd p s s' acts t fresh e,
  λ small. within_set listenfd p s small,
  λ fd asked h large. outside_set listenfd fd p s asked h large,
)
