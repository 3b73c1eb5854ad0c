-- ===== src/Dns/Async/Sockets.antt =====
-- network/dns/async_dns_client.cpp: the open sockets and the interest list of the event queue.
use cpp_example.Common.{
  erase, Fresh, Distinct, if◌then◌else◌, ℕ, ◌≡◌, refl, sym, ap, ◌∙◌, ◌==◌, Bool, List, [], ◌∷◌, map,
  arith, some, Bool-cases, inl, inr,
}
use cpp_example.Common.Outcome.{done, done_injective, >>=-eq-done}
use cpp_example.Dns.Async.{
  EpArg, Client, CommitReplies, returned, without, dns_async_client_commit, handle_event,
  finish_event, handle_events,
}

abbrev pub fds : List EpArg → List ℕ
fds = map (λ a. a.sockfd)

-- The open sockets are those on the interest list, each once.
pub record IsMatched (c : Client) : Type 0 where
  pub same : c.sockets ≡ fds c.registered
  pub distinct : Distinct (fds c.registered)

pub without-Fresh : (fd : ℕ) (l : List EpArg) → Fresh fd (fds l) → fds (without fd l) ≡ fds l
without-Fresh fd [] h = refl
without-Fresh fd (a ∷ l) h = ground (arith, without-Fresh fd l h.1)

erase-without : (fd : ℕ) (l : List EpArg) → Distinct (fds l) → fds (without fd l) ≡ erase fd (fds l)
erase-without fd [] d = refl
erase-without fd (a ∷ l) d = elim (Bool-cases (a.sockfd == fd)) [
  | inl e ↦ rw e (without-Fresh fd l (let same : a.sockfd ≡ fd = ground arith in rw same at d.0))
  | inr e ↦ rw e (ap (λ t. a.sockfd ∷ t) (erase-without fd l d.1))
]

pub Fresh-without : (x fd : ℕ) (l : List EpArg) → Fresh x (fds l) → Fresh x (fds (without fd l))
Fresh-without x fd [] h = tt
Fresh-without x fd (a ∷ l) h = ground (arith, Fresh-without x fd l h.1)

pub Distinct-without : (fd : ℕ) (l : List EpArg) → Distinct (fds l) → Distinct (fds (without fd l))
Distinct-without fd [] d = tt
Distinct-without fd (a ∷ l) d =
    ground (arith, Distinct-without fd l d.1, Fresh-without a.sockfd fd l d.0)

-- What close_event leaves of the two lists is left by the whole handler.
pub handle_event-lists :
    (inet_ntop : List ℕ → List ℕ) (fuel : ℕ) (arg : EpArg) (datagram : List ℕ) (allocated : Bool)
    (c c' : Client)
    → handle_event inet_ntop fuel arg datagram allocated c ≡ done c'
    → (c'.registered ≡ without arg.sockfd c.registered) × (c'.sockets ≡ erase arg.sockfd c.sockets)
unfolding handle_event finish_event
handle_event-lists inet_ntop fuel arg datagram allocated c c' e = ground arith

pub handle_event-IsMatched :
    (inet_ntop : List ℕ → List ℕ) (fuel : ℕ) (arg : EpArg) (datagram : List ℕ) (allocated : Bool)
    (c c' : Client)
    → IsMatched c
    → handle_event inet_ntop fuel arg datagram allocated c ≡ done c'
    → IsMatched c'
handle_event-IsMatched inet_ntop fuel arg datagram allocated c c' m e =
    let (r, s) = handle_event-lists inet_ntop fuel arg datagram allocated c c' e in
    record {
      same =
          s
          ∙ ap (erase arg.sockfd) m.same
          ∙ sym (erase-without arg.sockfd c.registered m.distinct)
          ∙ ap fds (sym r);
      distinct = rw r (Distinct-without arg.sockfd c.registered m.distinct);
    }

-- However many events a wake-up brings, and whatever their datagrams hold: if the handlers end
-- without an overrun, the open sockets are still exactly those on the interest list, each once.
pub handle_events-IsMatched :
    (inet_ntop : List ℕ → List ℕ) (fuel : ℕ) (es : List (EpArg × List ℕ × Bool)) (c c' : Client)
    → IsMatched c
    → handle_events inet_ntop fuel es c ≡ done c'
    → IsMatched c'
unfolding handle_events
handle_events-IsMatched inet_ntop fuel [] c c' m e = rw (← done_injective e) m
handle_events-IsMatched inet_ntop fuel ((arg, datagram, allocated) ∷ es) c c' m e =
    let (c1, first, rest) =
      >>=-eq-done (handle_event inet_ntop fuel arg datagram allocated c)
        (handle_events inet_ntop fuel es) e in
    handle_events-IsMatched inet_ntop fuel es c1 c'
      (handle_event-IsMatched inet_ntop fuel arg datagram allocated c c1 m first) rest

-- A commit that gets a socket and returns has opened it; it stands on the interest list if the
-- result is 0, and on no list, though open, if the result is -1.
pub dns_async_client_commit-lists :
    (r : CommitReplies) (name : List ℕ) (cb fd : ℕ) (c : Client) (ok : Bool) (c' : Client)
    → r.socket ≡ some fd
    → dns_async_client_commit r name cb c ≡ done (returned ok c')
    → (c'.sockets ≡ fd ∷ c.sockets)
      × (c'.registered
          ≡ (if ok then record { sockfd = fd; cb = cb } ∷ c.registered else c.registered))
unfolding dns_async_client_commit
dns_async_client_commit-lists r name cb fd c ok c' e h = ground arith
