-- ===== src/Dns/Async/Interleaving.antt =====
-- network/dns/async_dns_client.cpp: commits of the caller and answers taken by the thread, in any
-- order.
use cpp_example.Common.{
  ℕ, ◌+◌, ◌≡◌, refl, ◌==◌, Bool, true, false, some, List, [], ◌∷◌, length, get_elem?, contains,
  Fresh-contains, length-erase, Fresh, Distinct, if◌then◌else◌, arith, Bool-cases, inl, inr,
}
use cpp_example.Common.Outcome.{done}
use cpp_example.Dns.Async.{
  EpArg, Client, CommitReplies, returned, running, dns_async_client_init, dns_async_client_commit,
  handle_event,
}
use cpp_example.Dns.Async.Sockets.{
  fds, Distinct-without, Fresh-without, handle_event-lists, dns_async_client_commit-lists,
}
use cpp_example.Dns.Async.Effects.{
  leaks, count, waiting, called, count-append, Fresh-get_elem?, one_less, handle_event-effect,
  commit-effect, Fresh-without_same, Fresh-erase_ne,
}

-- A state that is reached, with the callbacks of the commits that returned 0, the leaks, and how
-- many commits returned -1.
pub data Run : List ℕ → ℕ → ℕ → Client → Type 0 where
  start :
      {epoll_fd : ℕ} {c : Client}
      → dns_async_client_init (some epoll_fd) true true ≡ running epoll_fd c
      → Run [] 0 0 c
  commits :
      {cbs : List ℕ} {leaked refused : ℕ} {c c' : Client}
      → Run cbs leaked refused c
      → (r : CommitReplies) (name : List ℕ) (cb fd : ℕ) (ok : Bool) → r.socket ≡ some fd
      → Fresh fd c.sockets
      → dns_async_client_commit r name cb c ≡ done (returned ok c')
      → Run
          (if ok then cb ∷ cbs else cbs)
          (leaked + leaks r)
          (if ok then refused else refused + 1)
          c'
  answered :
      {cbs : List ℕ} {leaked refused : ℕ} {c c' : Client}
      → Run cbs leaked refused c
      → (inet_ntop : List ℕ → List ℕ) (fuel i : ℕ) (arg : EpArg) (datagram : List ℕ)
        (allocated : Bool)
      → get_elem? c.registered i ≡ some arg
      → handle_event inet_ntop fuel arg datagram allocated c ≡ done c'
      → Run cbs leaked refused c'

record IsAccounted (cbs : List ℕ) (leaked refused : ℕ) (c : Client) : Type 0 where
  distinct : Distinct (fds c.registered)
  within : (x : ℕ) → Fresh x c.sockets → Fresh x (fds c.registered)
  balance : (x : ℕ) → count x (called c) + count x (waiting c) ≡ count x cbs
  open_count : length c.sockets ≡ refused + length c.registered
  live : c.live ≡ 1 + leaked + length c.registered

commits-IsAccounted :
    (cbs : List ℕ) (leaked refused : ℕ) (c c' : Client) (r : CommitReplies) (name : List ℕ)
    (cb fd : ℕ) (ok : Bool)
    → IsAccounted cbs leaked refused c
    → r.socket ≡ some fd
    → Fresh fd c.sockets
    → dns_async_client_commit r name cb c ≡ done (returned ok c')
    → IsAccounted
        (if ok then cb ∷ cbs else cbs)
        (leaked + leaks r)
        (if ok then refused else refused + 1)
        c'
commits-IsAccounted cbs leaked refused c c' r name cb fd true v s fresh e =
    let (opened, entered) = dns_async_client_commit-lists r name cb fd c true c' s e in
    let (calls, heap) = commit-effect r name cb fd c true c' s e in
    record {
      distinct = rw entered (v.within fd fresh, v.distinct);
      within = λ x f. rw entered (let g = rw opened at f in (g.0, v.within x g.1));
      open_count = rw (opened, entered) (omega (arith, v.open_count));
      balance = λ x. let b = v.balance x in rw (calls, entered) (ground (arith, b));
      live = rw (heap, entered) (omega (arith, v.live));
    }
commits-IsAccounted cbs leaked refused c c' r name cb fd false v s fresh e =
    let (opened, entered) = dns_async_client_commit-lists r name cb fd c false c' s e in
    let (calls, heap) = commit-effect r name cb fd c false c' s e in
    record {
      distinct = rw entered v.distinct;
      within = λ x f. rw entered (let g = rw opened at f in v.within x g.1);
      open_count = rw (opened, entered) (omega (arith, v.open_count));
      balance = λ x. rw (calls, entered) (v.balance x);
      live = rw (heap, entered) (omega (arith, v.live));
    }

answered-IsAccounted :
    (cbs : List ℕ) (leaked refused : ℕ) (c c' : Client) (inet_ntop : List ℕ → List ℕ) (fuel i : ℕ)
    (arg : EpArg) (datagram : List ℕ) (allocated : Bool)
    → IsAccounted cbs leaked refused c
    → get_elem? c.registered i ≡ some arg
    → handle_event inet_ntop fuel arg datagram allocated c ≡ done c'
    → IsAccounted cbs leaked refused c'
answered-IsAccounted cbs leaked refused c c' inet_ntop fuel i arg datagram allocated v there e =
    let (calls, heap, left) = handle_event-effect inet_ntop fuel arg datagram allocated c c' e in
    let (entries, open_) = handle_event-lists inet_ntop fuel arg datagram allocated c c' e in
    record {
      distinct = rw left (Distinct-without arg.sockfd c.registered v.distinct);
      within = λ x f. rw left (elim (Bool-cases (x == arg.sockfd)) [
        | inl same ↦
            let k : arg.sockfd ≡ x = ground arith in
            rw (← k) (Fresh-without_same arg.sockfd c.registered)
        | inr other ↦
            Fresh-without x arg.sockfd c.registered
              (v.within x (Fresh-erase_ne x arg.sockfd c.sockets (ground arith) (rw open_ at f)))
      ]);
      balance = λ x.
          let b = v.balance x in
          let (less, _) = one_less c.registered i x arg v.distinct there in
          rw (calls, left) (omega (arith, b, less, count-append x (called c) (arg.cb ∷ [])));
      open_count =
          let (_, shorter) = one_less c.registered i 0 arg v.distinct there in
          let one = length-erase arg.sockfd c.sockets (still_open v.within) in
          rw (open_, left) (omega (arith, v.open_count, shorter, one));
      live =
          let (_, shorter) = one_less c.registered i 0 arg v.distinct there in
          rw (heap, left) (omega (arith, v.live, shorter));
    }
  where
    still_open :
        ((x : ℕ) → Fresh x c.sockets → Fresh x (fds c.registered))
        → contains arg.sockfd c.sockets ≡ true
    still_open within = elim (Bool-cases (contains arg.sockfd c.sockets)) [
      | inl there_still ↦ there_still
      | inr gone ↦ absurd (
          Fresh-get_elem? arg.sockfd i c.registered arg
            (within arg.sockfd (Fresh-contains arg.sockfd c.sockets gone)) there refl)
    ]

Run-IsAccounted :
    {cbs : List ℕ} {leaked refused : ℕ} {c : Client}
    → Run cbs leaked refused c
    → IsAccounted cbs leaked refused c
unfolding dns_async_client_init
Run-IsAccounted (start {c} e) = rw (← from_init) (record {
  distinct = tt;
  within = λ x f. tt;
  open_count = refl;
  balance = λ x. refl;
  live = refl;
})
  where
    from_init : record { registered = []; sockets = []; sent = []; delivered = []; live = 1 } ≡ c
    from_init = cc
Run-IsAccounted (commits {cbs} {leaked} {refused} {c} {c'} run r name cb fd ok s fresh e) =
    commits-IsAccounted cbs leaked refused c c' r name cb fd ok (Run-IsAccounted run) s fresh e
Run-IsAccounted
      (answered {cbs} {leaked} {refused} {c} {c'} run inet_ntop fuel i arg datagram allocated there
        e) =
    answered-IsAccounted cbs leaked refused c c' inet_ntop fuel i arg datagram allocated
      (Run-IsAccounted run) there e

-- However commits and answers interleave from the start, and whatever the calls return and the
-- datagrams hold, as long as no handler overruns: each callback was called as often as its
-- successful commits, less those that still wait; one socket is open for each that waits, and one
-- for each commit that returned -1; and the blocks in use are the context, an argument for each
-- that waits, and what the commits leaked, the names of their queries among it.
pub queries_accounted :
    (cbs : List ℕ) (leaked refused : ℕ) (c : Client) (cb : ℕ)
    → Run cbs leaked refused c
    → (count cb (called c) + count cb (waiting c) ≡ count cb cbs)
      × (length c.sockets ≡ refused + length c.registered)
      × (c.live ≡ 1 + leaked + length c.registered)
queries_accounted cbs leaked refused c cb run =
    let v = Run-IsAccounted run in (v.balance cb, v.open_count, v.live)
