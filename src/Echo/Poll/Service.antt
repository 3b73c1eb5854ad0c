-- ===== src/Echo/Poll/Service.antt =====
-- network/echo/d4_poll_echo_server.cpp: every ready client is served.
use cpp_example.Common.{
  ℕ, ◌+◌, ◌-◌, ◌≤◌, ◌<◌, ◌≡◌, refl, sym, ap, ◌∙◌, ◌==◌, ltb, true, false, List, arith,
  if◌then◌else◌, some, Bool-cases, inl, inr, length, set, length-set, Option-cases,
}
use cpp_example.Echo.Sys.{eintr, eagain, other_error, Accepted, accepted, refused, Act, next}
use cpp_example.Echo.Slots.{Walked, walk, find_slot}
use cpp_example.Echo.Slots.Order.{fds_of, ready_count, answers, walk-acts, length-walk}
use cpp_example.Echo.Slots.Entries.{
  find_slot-le, Unused, Unused-mono, Unused-set, drop-walk, answers-Unused, ready_count-le,
}
use cpp_example.Echo.Poll.{
  max_poll_size, Server, Pass, poll_add, poll_serve, poll_accept, poll_pass,
}

-- `maxidx` is an index of the array and no client stands behind it.
pub record IsPacked (s : Server) : Type 0 where
  pub size : length s.client + 1 ≡ max_poll_size
  pub within : s.maxidx ≤ length s.client
  pub idle : Unused s.maxidx s.client

poll_serve-IsPacked :
    (p : Pass) (nready : ℕ) (s s' : Server) (acts : List Act)
    → IsPacked s
    → poll_serve p nready s ≡ next s' acts
    → IsPacked s'
unfolding poll_serve
poll_serve-IsPacked p nready s s' acts t e = rw (← same) (record {
  size = omega (arith, len, t.size);
  within = omega (arith, len, t.within);
  idle =
      ap fds_of (drop-walk (λ i fd. p.revents i) p.reads (λ fd u. u) s.maxidx 1 s.client nready tt)
      ∙ t.idle;
})
  where
    len :
        length
          (walk (λ i fd. p.revents i) p.reads (λ fd u. u) s.maxidx 1 s.client nready (tt {0})).slots
        ≡ length s.client
    len = length-walk (λ i fd. p.revents i) p.reads (λ fd u. u) s.maxidx 1 s.client nready tt

    same :
        record s {
          client =
              (walk
                (λ i fd. p.revents i)
                p.reads
                (λ fd u. u)
                s.maxidx
                1
                s.client
                nready
                (tt {0})).slots;
        }
        ≡ s'
    same = cc

poll_add-IsPacked : (fd : ℕ) (s s' : Server) → IsPacked s → poll_add fd s ≡ some s' → IsPacked s'
unfolding poll_add
poll_add-IsPacked fd s s' t e = elim (Bool-cases (i + 1 == max_poll_size)) [
  | inl full ↦ absurd (ground arith)
  | inr room ↦
      let there : i < length s.client = ground (arith, find_slot-le s.client, t.size) in
      let same : record {
        client = set s.client i (some fd);
        maxfd = if ltb s.maxfd fd then fd else s.maxfd;
        maxidx = maxidx;
      }
          ≡ s' =
        ground arith in
      rw (← same) (record {
        size = ground (arith, length-set s.client i (some fd), t.size);
        within = ground (arith, length-set s.client i (some fd), t.within);
        idle =
            Unused-set maxidx i s.client (some fd) (ground arith)
              (Unused-mono s.maxidx maxidx s.client (ground arith) t.idle);
      })
]
  where
    i : ℕ
    i = find_slot s.client

    maxidx : ℕ
    maxidx = if ltb s.maxidx (i + 1) then i + 1 else s.maxidx

poll_accept-IsPacked :
    (fd : ℕ) (p : Pass) (s s' : Server) (acts : List Act)
    → IsPacked s
    → poll_accept fd p s ≡ next s' acts
    → IsPacked s'
unfolding poll_accept
poll_accept-IsPacked fd p s s' acts t e = elim (Option-cases (poll_add fd s)) [
  | inl full ↦ absurd (ground arith)
  | inr (s1, added) ↦
      let t1 = poll_add-IsPacked fd s s1 t added in
      elim (Bool-cases (p.nready - 1 == 0)) [
        | inl last ↦ let same : s1 ≡ s' = ground arith in rw (← same) t1
        | inr more ↦ poll_serve-IsPacked p (p.nready - 1) s1 s' acts t1 (ground arith)
      ]
]

-- A pass keeps all clients at or below `maxidx`, whatever is ready, is read or is accepted.
pub poll_pass-IsPacked :
    (p : Pass) (s s' : Server) (acts : List Act)
    → IsPacked s
    → poll_pass p s ≡ next s' acts
    → IsPacked s'
unfolding poll_pass
poll_pass-IsPacked p s s' acts t e = elim (Bool-cases (p.revents 0)) [
  | inr quiet ↦ poll_serve-IsPacked p p.nready s s' acts t (ground arith)
  | inl asked ↦ by_accept p.accept refl asked
]
  where
    by_accept : (a : Accepted) → p.accept ≡ a → p.revents 0 ≡ true → IsPacked s'
    by_accept (refused eintr) h asked = let same : s ≡ s' = ground arith in rw (← same) t
    by_accept (refused eagain) h asked = absurd (ground arith)
    by_accept (refused other_error) h asked = absurd (ground arith)
    by_accept (accepted fd) h asked = poll_accept-IsPacked fd p s s' acts t (ground arith)

-- A pass of a packed server without a new connection: if poll counted at least the ready clients,
-- each one in the array gets its bytes back, or is closed at the end of its stream or on an error,
-- in the order of the array, and nothing else is done.
pub poll_pass-answers :
    (p : Pass) (s : Server)
    → IsPacked s
    → p.revents 0 ≡ false
    → ready_count (λ i fd. p.revents i) p.reads (length s.client) 1 s.client ≤ p.nready
    → (s' : Server) × (poll_pass p s
        ≡ next s' (answers (λ i fd. p.revents i) p.reads (length s.client) 1 s.client))
unfolding poll_pass poll_serve
poll_pass-answers p s t quiet counted =
    (record s { client = w.slots }, rw quiet (ap (next (record s { client = w.slots })) served))
  where
    w : Walked Unit
    w = walk (λ i fd. p.revents i) p.reads (λ fd u. u) s.maxidx 1 s.client p.nready tt

    served : w.acts ≡ answers (λ i fd. p.revents i) p.reads (length s.client) 1 s.client
    served =
        walk-acts (λ i fd. p.revents i) p.reads (λ fd u. u) s.maxidx 1 s.client p.nready tt
          (omega (
            arith,
            ready_count-le (λ i fd. p.revents i) p.reads s.maxidx (length s.client) 1 s.client
                t.within,
          ))
        ∙ sym (
            answers-Unused (λ i fd. p.revents i) p.reads s.maxidx (length s.client) 1 s.client
              t.within t.idle)
