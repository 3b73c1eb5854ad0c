-- ===== src/C1000k/Bounded.antt =====
-- network/demo4_c1000k_client.cpp: the bounds of the counters and of the buffers.
use cpp_example.Common.{
  ℕ, ◌-◌, ◌≤◌, ◌<◌, ◌≡◌, ◌≢◌, refl, ◌==◌, Bool, true, false, List, [], ◌∷◌, ◌++◌, length,
  length-append, erase, length-erase, contains, Fresh, Distinct, All, map, Bool-cases, inl, inr,
  arith,
}
use cpp_example.Common.Outcome.{done}
use cpp_example.Echo.Sys.{eintr, eagain, other_error, Got, got, failed}
use cpp_example.C1000k.Client.{
  Client, Event, max_buffer, quit, same_text, hello, data_from, close_client, handle_event,
  handle_events,
}
use cpp_example.C1000k.Text.{IsBounded, AreShort, send_text-IsText, receive_lem}

-- The events of one epoll_wait are for registered descriptors, each once.
pub record AreDelivered (es : List Event) (registered : List ℕ) : Type 0 where
  pub distinct : Distinct (map (λ e. e.clientfd) es)
  pub known : All (λ e. contains e.clientfd registered ≡ true) es

contains-erase_ne :
    (x y : ℕ) (xs : List ℕ) → y ≢ x → contains y xs ≡ true → contains y (erase x xs) ≡ true
contains-erase_ne x y [] h e = cc
contains-erase_ne x y (z ∷ zs) h e = ground (arith, contains-erase_ne x y zs h)

still_known :
    (fd : ℕ) (es : List Event) (old new : List ℕ)
    → Fresh fd (map (λ e. e.clientfd) es)
    → All (λ e. contains e.clientfd old ≡ true) es
    → ((y : ℕ) → y ≢ fd → contains y old ≡ true → contains y new ≡ true)
    → All (λ e. contains e.clientfd new ≡ true) es
still_known fd [] old new f k keeps = tt
still_known fd (e ∷ es) old new f k keeps =
    (keeps e.clientfd f.0 k.0, still_known fd es old new f.1 k.1 keeps)

module _ (digits : ℕ → List ℕ) (short : AreShort digits) where
  pub hello_short : (n : ℕ) → length (hello ++ digits n ++ 10 ∷ []) < max_buffer
  hello_short n = omega (
    arith,
    short n,
    length-append hello (digits n ++ 10 ∷ []),
    length-append (digits n) (10 ∷ []),
  )

  data_from_short : (n : ℕ) → length (data_from ++ digits n ++ 10 ∷ []) < max_buffer
  data_from_short n = omega (
    arith,
    short n,
    length-append data_from (digits n ++ 10 ∷ []),
    length-append (digits n) (10 ∷ []),
  )

  -- One event: what it leaves registered, but for its own descriptor, is as before.
  -- A state in which the event's own descriptor may be closed.
  abbrev Handled : ℕ → Client → Client → Type 0
  Handled clientfd c c' =
      IsBounded c'
      × ((y : ℕ) → y ≢ clientfd → contains y c.registered ≡ true → contains y c'.registered ≡ true)

  unchanged :
      (clientfd : ℕ) (c : Client) (k : ℕ)
      → IsBounded c
      → Handled clientfd c (record c { is_continue = k })
  unchanged clientfd c k v = (
    record { ports = v.ports; capped = v.capped; entered = v.entered; wbuf = v.wbuf },
    λ y other h. h,
  )

  -- One connection is closed and one at most counted down.
  closed :
      (clientfd less : ℕ) (c : Client)
      → IsBounded c
      → contains clientfd c.registered ≡ true
      → less ≤ 1
      → Handled clientfd c (close_client clientfd (record c { connections = c.connections - less }))
  closed clientfd less c v there h = (
    record {
      ports = v.ports;
      capped = omega (arith, v.capped);
      entered = omega (arith, h, v.entered, length-erase clientfd c.registered there);
      wbuf = v.wbuf;
    },
    λ y other k. contains-erase_ne clientfd y c.registered other k,
  )

  closed_only :
      (clientfd : ℕ) (c : Client)
      → IsBounded c
      → contains clientfd c.registered ≡ true
      → Handled clientfd c (close_client clientfd c)
  closed_only clientfd c v there = (
    record {
      ports = v.ports;
      capped = v.capped;
      entered = omega (arith, v.entered, length-erase clientfd c.registered there);
      wbuf = v.wbuf;
    },
    λ y other k. contains-erase_ne clientfd y c.registered other k,
  )

  received-IsBounded :
      (sockfd clientfd : ℕ) (msg : List ℕ) (c : Client)
      → IsBounded c
      → contains clientfd c.registered ≡ true
      → (c' : Client) × (handle_event digits sockfd
            (record { clientfd = clientfd; writable = false; readable = true; received = got msg })
            c
          ≡ done c')
        × Handled clientfd c c'
  unfolding handle_event
  received-IsBounded sockfd clientfd msg c v there =
      let (taken, e) = receive_lem msg c.wbuf v.wbuf in
      elim (Bool-cases (taken.1 == 0)) [
        | inl none_left ↦ (_, rw e (rw none_left refl), closed clientfd 1 c v there (omega arith))
        | inr some_left ↦ elim (Bool-cases (same_text taken.0 quit)) [
          | inl quits ↦ (_, rw e (rw (some_left, quits) refl), unchanged clientfd c 0 v)
          | inr other ↦ (_, rw e (rw (some_left, other) refl), unchanged clientfd c c.is_continue v)
        ]
      ]

  handle_event-IsBounded :
      (sockfd clientfd : ℕ) (writable readable : Bool) (received : Got) (c : Client)
      → IsBounded c
      → contains clientfd c.registered ≡ true
      → (c' : Client) × (handle_event digits sockfd
            (record {
              clientfd = clientfd;
              writable = writable;
              readable = readable;
              received = received;
            })
            c
          ≡ done c')
        × Handled clientfd c c'
  unfolding handle_event
  handle_event-IsBounded sockfd clientfd true readable received c v there =
      let (wbuf, e, text) =
        send_text-IsText sockfd (data_from ++ digits clientfd ++ 10 ∷ []) c v.wbuf
          (data_from_short clientfd) in
      (
        _,
        e,
        (
          record { ports = v.ports; capped = v.capped; entered = v.entered; wbuf = text },
          λ y other h. h,
        ),
      )
  handle_event-IsBounded sockfd clientfd false false received c v there =
      (_, refl, closed_only clientfd c v there)
  handle_event-IsBounded sockfd clientfd false true (got msg) c v there =
      received-IsBounded sockfd clientfd msg c v there
  handle_event-IsBounded sockfd clientfd false true (failed eintr) c v there =
      (c, refl, unchanged clientfd c c.is_continue v)
  handle_event-IsBounded sockfd clientfd false true (failed eagain) c v there =
      (_, refl, closed_only clientfd c v there)
  handle_event-IsBounded sockfd clientfd false true (failed other_error) c v there =
      (_, refl, closed_only clientfd c v there)

  pub handle_events-IsBounded :
      (sockfd : ℕ) (es : List Event) (c : Client)
      → IsBounded c
      → AreDelivered es c.registered
      → (c' : Client) × (handle_events digits sockfd es c ≡ done c') × IsBounded c'
  unfolding handle_events
  handle_events-IsBounded sockfd [] c v d = (c, refl, v)
  handle_events-IsBounded sockfd (e ∷ es) c v d =
      let (c1, first, (v1, kept)) =
        handle_event-IsBounded sockfd e.clientfd e.writable e.readable e.received c v d.known.0 in
      let (c2, rest, v2) = handle_events-IsBounded sockfd es c1 v1 (record {
        distinct = d.distinct.1;
        known = still_known e.clientfd es c.registered c1.registered d.distinct.0 d.known.1 kept;
      }) in
      (c2, rw first rest, v2)
