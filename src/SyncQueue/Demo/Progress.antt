-- ===== src/SyncQueue/Demo/Progress.antt =====
-- condition_variable/demo1_sync_queue.cpp: the threads come to their end.
use cpp_example.Common.{
  ℕ, ◌+◌, ◌-◌, ◌*◌, ◌<◌, ◌≡◌, refl, sym, ap, ◌∙◌, ◌⊎◌, inl, inr, List, [], ◌∷◌, ◌++◌, arith, length,
  length-append, ltb, append-nil, Bool-cases, ltb→lt, contains, false, zero, suc,
}
use cpp_example.SyncQueue.Waiting.{waits, returns, notify_one}
use cpp_example.SyncQueue.Bounded.{SyncQueue, put, take}
use cpp_example.SyncQueue.Bounded
use cpp_example.SyncQueue.Demo.{
  rounds, producer, consumer, Demo, Step, put_datas, put_waits, take_datas, take_waits, Reach,
}
use cpp_example.SyncQueue.Demo.Running.{numbers, IsRunning, Reach-IsRunning, awake}

-- The rounds that the two threads have before them.
abbrev pub rounds_left : Demo → ℕ
rounds_left d = (rounds - d.sent) + (rounds - d.received)

-- With them, how many threads do not wait.
abbrev pub steps_left : Demo → ℕ
steps_left d =
    2 * rounds_left d + ((1 - length d.sync_queue.not_full) + (1 - length d.sync_queue.not_empty))

length-numbers : (n : ℕ) → length (numbers n) ≡ n
length-numbers zero = refl
length-numbers (suc n) = omega (arith, length-numbers n, length-append (numbers n) (n ∷ []))

-- The counts when the queue holds the list.
in_queue : {d : Demo} → IsRunning d → d.received + length d.sync_queue.queue ≡ d.sent
in_queue {d} v = omega (
  arith,
  v.counted,
  length-append d.printed d.sync_queue.queue,
  ap length v.order,
  length-numbers d.sent,
)

producer_awake : (d : Demo) → IsRunning d → d.sync_queue.queue ≡ [] → d.sync_queue.not_full ≡ []
producer_awake d v e = elim v.full_wait [
  | inl w ↦ w
  | inr (w, full) ↦ absurd (omega (arith, full, ap length e))
]

consumer_awake :
    (d : Demo) (x : ℕ) (xs : List ℕ)
    → IsRunning d
    → d.sync_queue.queue ≡ x ∷ xs
    → d.sync_queue.not_empty ≡ []
consumer_awake d x xs v e = elim v.empty_wait [
  | inl w ↦ w
  | inr (w, none_there) ↦ absurd (omega (arith, ap length none_there, ap length e))
]

put_ready :
    (q : SyncQueue ℕ) (x : ℕ)
    → q.queue ≡ []
    → q.max_size ≡ 5
    → (q' : SyncQueue ℕ) × (put producer 0 x q ≡ returns tt q')
unfolding put Bounded.is_full
put_ready q x e f = (
  record q { queue = q.queue ++ x ∷ []; not_empty = notify_one 0 q.not_empty },
  ground (arith, e, f),
)

take_ready :
    (q : SyncQueue ℕ) (x : ℕ) (xs : List ℕ)
    → q.queue ≡ x ∷ xs
    → (q' : SyncQueue ℕ) × (take consumer 0 q ≡ returns x q')
unfolding take
take_ready q x xs e =
    (record q { queue = xs; not_full = notify_one 0 q.not_full }, ground (arith, e))

abbrev IsFinished : Demo → Type 0
IsFinished d = (d.sent ≡ rounds) × (d.received ≡ rounds) × (d.printed ≡ numbers rounds)

-- A thread that does not wait can do its next round, or both have finished.
goes_on :
    (d : Demo)
    → IsRunning d
    → ((e : Demo) × Step d e × (rounds_left e + 1 ≡ rounds_left d)) ⊎ IsFinished d
goes_on d v = by_queue d.sync_queue.queue refl
  where
    ends : d.sync_queue.queue ≡ [] → d.sent ≡ rounds → IsFinished d
    ends e s = (
      s,
      omega (arith, s, in_queue v, ap length e),
      sym (append-nil d.printed) ∙ ap (λ l. d.printed ++ l) (sym e) ∙ v.order ∙ ap numbers s,
    )

    by_queue :
        (l : List ℕ)
        → d.sync_queue.queue ≡ l
        → ((e : Demo) × Step d e × (rounds_left e + 1 ≡ rounds_left d)) ⊎ IsFinished d
    by_queue (x ∷ xs) e =
        let (q', f) = take_ready d.sync_queue x xs e in
        let free : contains consumer d.sync_queue.not_empty ≡ false =
          rw (consumer_awake d x xs v e) refl in
        let less : d.received < rounds = omega (arith, v.sends, in_queue v, ap length e) in
        inl (_, take_datas 0 x less free f, omega (arith, less))
    by_queue [] e = elim (Bool-cases (ltb d.sent rounds)) [
      | inl h ↦
          let (q', f) = put_ready d.sync_queue d.sent e v.five in
          let free : contains producer d.sync_queue.not_full ≡ false =
            rw (producer_awake d v e) refl in
          let less = ltb→lt d.sent rounds h in inl (_, put_datas 0 less free f, omega (arith, less))
      | inr h ↦ inr (ends e (ground (arith, h, v.sends)))
    ]

-- A notification wakes at most one thread, and a wait adds one.
wait_joined :
    (thread : ℕ) (l : List ℕ) → l ≡ [] → (1 - length (l ++ thread ∷ [])) + 1 ≡ 1 - length l
wait_joined thread l e = rw e refl

put_waits_joined :
    (k x : ℕ) (q q' : SyncQueue ℕ)
    → put producer k x q ≡ waits q'
    → (q'.not_full ≡ q.not_full ++ producer ∷ []) × (q'.not_empty ≡ q.not_empty)
unfolding put
put_waits_joined k x q q' e = (ground (arith, e), ground (arith, e))

take_waits_joined :
    (k : ℕ) (q q' : SyncQueue ℕ)
    → take consumer k q ≡ waits q'
    → (q'.not_empty ≡ q.not_empty ++ consumer ∷ []) × (q'.not_full ≡ q.not_full)
unfolding take
take_waits_joined k q q' e = (ground (arith, e), ground (arith, e))

put_leaves :
    (k x : ℕ) (q q' : SyncQueue ℕ) → put producer k x q ≡ returns tt q' → q'.not_full ≡ q.not_full
unfolding put
put_leaves k x q q' e = ground (arith, e)

take_leaves :
    (k x : ℕ) (q q' : SyncQueue ℕ) → take consumer k q ≡ returns x q' → q'.not_empty ≡ q.not_empty
unfolding take
take_leaves k x q q' e = ground (arith, e)

comes_nearer : {d e : Demo} → IsRunning d → Step d e → steps_left e < steps_left d
comes_nearer {d} v (put_datas k {q} h w e) =
    omega (arith, ap length (put_leaves k d.sent d.sync_queue q e), h)
comes_nearer {d} v (take_datas k x {q} h w e) =
    omega (arith, ap length (take_leaves k x d.sync_queue q e), h)
comes_nearer {d} v (put_waits k {q} h w e) =
    let (more, same) = put_waits_joined k d.sent d.sync_queue q e in
    let none_yet = awake producer _ d.sync_queue.not_full v.full_wait w in
    omega
      (arith, ap length more, ap length same, wait_joined producer d.sync_queue.not_full none_yet)
comes_nearer {d} v (take_waits k {q} h w e) =
    let (more, same) = take_waits_joined k d.sync_queue q e in
    let none_yet = awake consumer _ d.sync_queue.not_empty v.empty_wait w in
    omega
      (arith, ap length more, ap length same, wait_joined consumer d.sync_queue.not_empty none_yet)

-- In every reachable state, whichever thread was woken by each notification, and whatever waits
-- ended unnotified: a thread that does not wait can put or take its next value, or both threads have
-- finished, and then the numbers 0 to 19 have been printed in order. Every step, one that begins a
-- wait too, brings the end nearer, so that the threads come to it unless waits end unnotified for
-- ever.
pub demo_never_stuck :
    {d : Demo}
    → Reach d
    → (((e : Demo) × Step d e × (rounds_left e + 1 ≡ rounds_left d))
        ⊎ ((d.sent ≡ rounds) × (d.received ≡ rounds) × (d.printed ≡ numbers rounds)))
      × ((e : Demo) → Step d e → steps_left e < steps_left d)
demo_never_stuck {d} r = let v = Reach-IsRunning r in (goes_on d v, λ e s. comes_nearer v s)
