-- ===== src/Dns/Async/Effects.antt =====
-- network/dns/async_dns_client.cpp: what one commit and one answer do to the callbacks and the heap.
use cpp_example.Common.{
  ℕ, zero, suc, ◌+◌, ◌-◌, ◌*◌, ◌≡◌, ◌≢◌, refl, sym, ap, ◌∙◌, ◌==◌, Bool, Option, none, some, List,
  [], ◌∷◌, ◌++◌, map, length, get_elem?, erase, Fresh, Distinct, if◌then◌else◌, arith, Bool-cases,
  inl, inr,
}
use cpp_example.Common.Outcome.{done, done_injective, >>=-eq-done}
use cpp_example.Dns.Response.{Item, dns_parse_response}
use cpp_example.Dns.Async.{
  EpArg, Client, Delivery, received, CommitReplies, returned, without, dns_async_client_commit,
  dns_async_client_free_domains, finish_event, handle_event,
}
use cpp_example.Dns.Async.Events.{free_domains_all}
use cpp_example.Dns.Async.Sockets.{fds}

-- The blocks that a commit allocates and no one frees: the name, and the argument of a socket that
-- epoll_ctl refused.
abbrev pub leaks : CommitReplies → ℕ
leaks r =
    let name : ℕ = elim r.memory [ none ↦ 0 | some _ ↦ 1 ] in
    let arg : ℕ = if r.eparg then (if r.ctl_add then 0 else 1) else 0 in name + arg

abbrev pub count : ℕ → List ℕ → ℕ
count x [] = 0
count x (y ∷ ys) = let rest = count x ys in if y == x then suc rest else rest

abbrev pub waiting : Client → List ℕ
waiting c = map (λ a. a.cb) c.registered

abbrev pub called : Client → List ℕ
called c = map (λ d. d.callback) c.delivered

pub count-append : (x : ℕ) (xs ys : List ℕ) → count x (xs ++ ys) ≡ count x xs + count x ys
count-append x [] ys = omega arith
count-append x (y ∷ xs) ys = ground (arith, count-append x xs ys)

without_absent : (fd : ℕ) (l : List EpArg) → Fresh fd (fds l) → without fd l ≡ l
without_absent fd [] h = refl
without_absent fd (a ∷ l) h = ground (arith, without_absent fd l h.1)

without_first : (a : EpArg) (l : List EpArg) → Fresh a.sockfd (fds l) → without a.sockfd (a ∷ l) ≡ l
without_first a l h = ground (arith, without_absent a.sockfd l h)

count-cons : (x y : ℕ) (ys : List ℕ) → count x ys + count x (y ∷ []) ≡ count x (y ∷ ys)
count-cons x y ys = ground arith

pub Fresh-get_elem? :
    (x i : ℕ) (l : List EpArg) (arg : EpArg)
    → Fresh x (fds l)
    → get_elem? l i ≡ some arg
    → x ≢ arg.sockfd
Fresh-get_elem? x i [] arg h e = cc
Fresh-get_elem? x zero (a ∷ l) arg h e = ground (arith, h.0, e)
Fresh-get_elem? x (suc i) (a ∷ l) arg h e = Fresh-get_elem? x i l arg h.1 e

called-append :
    (xs ys : List Delivery)
    → map (λ d. d.callback) (xs ++ ys) ≡ map (λ d. d.callback) xs ++ map (λ d. d.callback) ys
called-append [] ys = refl
called-append (x ∷ xs) ys = ap (◌∷◌ x.callback) (called-append xs ys)

-- Taking out the one entry of a socket.
pub one_less :
    (l : List EpArg) (i x : ℕ) (arg : EpArg)
    → Distinct (fds l)
    → get_elem? l i ≡ some arg
    → (count x (map (λ a. a.cb) l)
        ≡ count x (map (λ a. a.cb) (without arg.sockfd l)) + count x (arg.cb ∷ []))
      × (length l ≡ length (without arg.sockfd l) + 1)
one_less [] i x arg d e = cc
one_less (a ∷ l) zero x arg d e =
    let same : a ≡ arg = cc in
    let gone = without_first a l d.0 in
    (
      sym (count-cons x a.cb (map (λ b. b.cb) l))
          ∙ ap (λ m. count x (map (λ b. b.cb) m) + count x (a.cb ∷ [])) (sym gone)
          ∙ ap (λ b. count x (map (λ y. y.cb) (without b.sockfd (a ∷ l))) + count x (b.cb ∷ []))
              same,
      omega arith
          ∙ ap (λ m. length m + 1) (sym gone)
          ∙ ap (λ b. length (without b.sockfd (a ∷ l)) + 1) same,
    )
one_less (a ∷ l) (suc i) x arg d e =
    let (counts, sizes) = one_less l i x arg d.1 e in
    let other = Fresh-get_elem? a.sockfd i l arg d.0 e in ground (arith, counts, sizes, other)

pub handle_event-effect :
    (inet_ntop : List ℕ → List ℕ) (fuel : ℕ) (arg : EpArg) (datagram : List ℕ) (allocated : Bool)
    (c c' : Client)
    → handle_event inet_ntop fuel arg datagram allocated c ≡ done c'
    → (called c' ≡ called c ++ arg.cb ∷ [])
      × (c'.live ≡ c.live - 1)
      × (c'.registered ≡ without arg.sockfd c.registered)
unfolding handle_event finish_event
handle_event-effect inet_ntop fuel arg datagram allocated c c' e =
    let (parsed, p, q) =
      >>=-eq-done (dns_parse_response inet_ntop fuel (received datagram) allocated) _ e in
    let same = done_injective q in
    rw (← same) (
      called-append c.delivered (_ ∷ []),
      freed_lem (elim parsed [ none ↦ none | some s ↦ some s.items ]),
      refl,
    )
  where
    freed_lem :
        (list : Option (List Item))
        → elim list [
          | none ↦ c.live
          | some is ↦ dns_async_client_free_domains is (c.live + 1 + 2 * length is)
        ]
            - 1
          ≡ c.live - 1
    freed_lem none = refl
    freed_lem (some is) = ap (λ n. n - 1) (free_domains_all is c.live)

pub commit-effect :
    (r : CommitReplies) (name : List ℕ) (cb fd : ℕ) (c : Client) (ok : Bool) (c' : Client)
    → r.socket ≡ some fd
    → dns_async_client_commit r name cb c ≡ done (returned ok c')
    → (called c' ≡ called c) × (c'.live ≡ c.live + leaks r + (if ok then 1 else 0))
unfolding dns_async_client_commit
commit-effect r name cb fd c ok c' e h = ground arith

pub Fresh-without_same : (fd : ℕ) (l : List EpArg) → Fresh fd (fds (without fd l))
Fresh-without_same fd [] = tt
Fresh-without_same fd (a ∷ l) = elim (Bool-cases (a.sockfd == fd)) [
  | inl e ↦ rw e (Fresh-without_same fd l)
  | inr e ↦ rw e (ground arith, Fresh-without_same fd l)
]

pub Fresh-erase_ne : (x fd : ℕ) (xs : List ℕ) → x ≢ fd → Fresh x (erase fd xs) → Fresh x xs
Fresh-erase_ne x fd [] h f = tt
Fresh-erase_ne x fd (y ∷ ys) h f = elim (Bool-cases (y == fd)) [
  | inl e ↦ (ground arith, rw e at f)
  | inr e ↦ let g : Fresh x (y ∷ erase fd ys) = rw e at f in (g.0, Fresh-erase_ne x fd ys h g.1)
]
