-- ===== src/SyncQueue/Demo/Running.antt =====
-- condition_variable/demo1_sync_queue.cpp: what stands in the queue, and who waits.
use cpp_example.Common.{
  ℕ, zero, suc, ◌+◌, ◌≤◌, ◌<◌, ◌≡◌, refl, sym, ap, ◌∙◌, ◌⊎◌, inl, inr, List, [], ◌∷◌, ◌++◌,
  append_assoc, arith, length, length-append, erase, contains, false, Bool-cases, ◌==◌,
}
use cpp_example.SyncQueue.Waiting.{waits, returns, notify_one}
use cpp_example.SyncQueue.Bounded.{SyncQueue, put, take, wake_up}
use cpp_example.SyncQueue.Bounded
use cpp_example.SyncQueue.Demo.{
  rounds, producer, consumer, Demo, start_demo, Step, put_datas, put_waits, take_datas, take_waits,
  Reach, here, then_step, then_woken,
}

abbrev pub numbers : ℕ → List ℕ
numbers zero = []
numbers (suc n) = numbers n ++ n ∷ []

-- The list of a condition variable on which at most one thread waits, and only while `P`.
abbrev pub WaitsWhile : ℕ → Type 0 → List ℕ → Type 0
WaitsWhile thread P l = (l ≡ []) ⊎ ((l ≡ thread ∷ []) × P)

-- The values printed and those in the queue are the first `sent` numbers, and a thread waits only
-- while it has to: the producer at a full queue, the consumer at an empty one.
pub record IsRunning (d : Demo) : Type 0 where
  pub order : d.printed ++ d.sync_queue.queue ≡ numbers d.sent
  pub counted : length d.printed ≡ d.received
  pub bound : length d.sync_queue.queue ≤ 5
  pub five : d.sync_queue.max_size ≡ 5
  pub sends : d.sent ≤ rounds
  pub receives : d.received ≤ rounds
  pub full_wait : WaitsWhile producer (length d.sync_queue.queue ≡ 5) d.sync_queue.not_full
  pub empty_wait : WaitsWhile consumer (d.sync_queue.queue ≡ []) d.sync_queue.not_empty

order_put :
    (p q q' : List ℕ) (n : ℕ) → p ++ q ≡ numbers n → q' ≡ q ++ n ∷ [] → p ++ q' ≡ numbers (n + 1)
order_put p q q' n h e =
    ap (λ l. p ++ l) e ∙ sym (append_assoc p q (n ∷ [])) ∙ ap (λ l. l ++ n ∷ []) h ∙ ap numbers next
  where
    next : suc n ≡ n + 1
    next = omega arith

order_take :
    (p q q' : List ℕ) (x : ℕ) (r : List ℕ) → p ++ q ≡ r → q ≡ x ∷ q' → (p ++ x ∷ []) ++ q' ≡ r
order_take p q q' x r h e = append_assoc p (x ∷ []) q' ∙ ap (λ l. p ++ l) (sym e) ∙ h

-- A notification empties such a list, and so does nothing else that a thread does.
notified : (thread k : ℕ) (P : Type 0) (l : List ℕ) → WaitsWhile thread P l → notify_one k l ≡ []
unfolding notify_one
notified thread k P l (inl e) = rw (e, notify_one) refl
notified thread zero P l (inr (e, p)) = rw (e, notify_one) refl
notified thread (suc k) P l (inr (e, p)) = rw (e, notify_one) refl

unnotified :
    (thread i : ℕ) (P : Type 0) (l : List ℕ)
    → WaitsWhile thread P l
    → WaitsWhile thread P (erase i l)
unnotified thread i P l (inl e) = inl (rw e refl)
unnotified thread i P l (inr (e, p)) = elim (Bool-cases (thread == i)) [
  | inl same ↦ inl (rw e (ground (arith, same)))
  | inr other ↦ inr (rw e (ground (arith, other)), p)
]

pub awake :
    (thread : ℕ) (P : Type 0) (l : List ℕ)
    → WaitsWhile thread P l
    → contains thread l ≡ false
    → l ≡ []
awake thread P l (inl e) h = e
awake thread P l (inr (e, p)) h =
    let there : contains thread (thread ∷ []) ≡ false = rw e at h in absurd (ground arith)

put_datas-IsRunning :
    (d : Demo) (k : ℕ) (q : SyncQueue ℕ)
    → IsRunning d
    → d.sent < rounds
    → contains producer d.sync_queue.not_full ≡ false
    → put producer k d.sent d.sync_queue ≡ returns tt q
    → IsRunning (record d { sync_queue = q; sent = d.sent + 1 })
unfolding put
put_datas-IsRunning d k q v h w e = record {
  order =
      order_put d.printed d.sync_queue.queue q.queue d.sent v.order
        (Bounded.put_adds producer k d.sent d.sync_queue q e);
  counted = v.counted;
  bound = (Bounded.put-IsWithin 5 producer k d.sent d.sync_queue q (v.five, v.bound) e).1;
  five = (Bounded.put-IsWithin 5 producer k d.sent d.sync_queue q (v.five, v.bound) e).0;
  sends = omega arith;
  receives = v.receives;
  full_wait = inl (kept ∙ awake producer _ d.sync_queue.not_full v.full_wait w);
  empty_wait = inl (told ∙ notified consumer k _ d.sync_queue.not_empty v.empty_wait);
}
  where
    kept : q.not_full ≡ d.sync_queue.not_full
    kept = ground (arith, e)

    told : q.not_empty ≡ notify_one k d.sync_queue.not_empty
    told = ground (arith, e)

put_waits-IsRunning :
    (d : Demo) (k : ℕ) (q : SyncQueue ℕ)
    → IsRunning d
    → contains producer d.sync_queue.not_full ≡ false
    → put producer k d.sent d.sync_queue ≡ waits q
    → IsRunning (record d { sync_queue = q })
unfolding put Bounded.is_full
put_waits-IsRunning d k q v w e = record {
  order = ap (λ l. d.printed ++ l) same ∙ v.order;
  counted = v.counted;
  bound = (Bounded.put_waits-IsWithin 5 producer k d.sent d.sync_queue q (v.five, v.bound) e).1;
  five = (Bounded.put_waits-IsWithin 5 producer k d.sent d.sync_queue q (v.five, v.bound) e).0;
  sends = v.sends;
  receives = v.receives;
  full_wait = inr (
    joined ∙ ap (λ l. l ++ producer ∷ []) (awake producer _ d.sync_queue.not_full v.full_wait w),
    ground (arith, e, v.five),
  );
  empty_wait = rw (kept, same) v.empty_wait;
}
  where
    same : q.queue ≡ d.sync_queue.queue
    same = Bounded.put_waits producer k d.sent d.sync_queue q e

    kept : q.not_empty ≡ d.sync_queue.not_empty
    kept = ground (arith, e)

    joined : q.not_full ≡ d.sync_queue.not_full ++ producer ∷ []
    joined = ground (arith, e)

take_datas-IsRunning :
    (d : Demo) (k x : ℕ) (q : SyncQueue ℕ)
    → IsRunning d
    → d.received < rounds
    → contains consumer d.sync_queue.not_empty ≡ false
    → take consumer k d.sync_queue ≡ returns x q
    → IsRunning
        (record d { sync_queue = q; received = d.received + 1; printed = d.printed ++ x ∷ [] })
unfolding take
take_datas-IsRunning d k x q v h w e = record {
  order =
      order_take d.printed d.sync_queue.queue q.queue x (numbers d.sent) v.order
        (Bounded.take_removes consumer k x d.sync_queue q e);
  counted = omega (arith, v.counted, length-append d.printed (x ∷ []));
  bound = (Bounded.take-IsWithin 5 consumer k x d.sync_queue q (v.five, v.bound) e).1;
  five = (Bounded.take-IsWithin 5 consumer k x d.sync_queue q (v.five, v.bound) e).0;
  sends = v.sends;
  receives = omega arith;
  full_wait = inl (told ∙ notified producer k _ d.sync_queue.not_full v.full_wait);
  empty_wait = inl (kept ∙ awake consumer _ d.sync_queue.not_empty v.empty_wait w);
}
  where
    kept : q.not_empty ≡ d.sync_queue.not_empty
    kept = ground (arith, e)

    told : q.not_full ≡ notify_one k d.sync_queue.not_full
    told = ground (arith, e)

take_waits-IsRunning :
    (d : Demo) (k : ℕ) (q : SyncQueue ℕ)
    → IsRunning d
    → contains consumer d.sync_queue.not_empty ≡ false
    → take consumer k d.sync_queue ≡ waits q
    → IsRunning (record d { sync_queue = q })
unfolding take
take_waits-IsRunning d k q v w e = record {
  order = ap (λ l. d.printed ++ l) same ∙ v.order;
  counted = v.counted;
  bound = (Bounded.take_waits-IsWithin 5 consumer k d.sync_queue q (v.five, v.bound) e).1;
  five = (Bounded.take_waits-IsWithin 5 consumer k d.sync_queue q (v.five, v.bound) e).0;
  sends = v.sends;
  receives = v.receives;
  full_wait = rw (kept, same) v.full_wait;
  empty_wait = inr (
    joined ∙ ap (λ l. l ++ consumer ∷ []) (awake consumer _ d.sync_queue.not_empty v.empty_wait w),
    ground (arith, e),
  );
}
  where
    same : q.queue ≡ d.sync_queue.queue
    same = Bounded.take_waits consumer k d.sync_queue q e

    kept : q.not_full ≡ d.sync_queue.not_full
    kept = ground (arith, e)

    joined : q.not_empty ≡ d.sync_queue.not_empty ++ consumer ∷ []
    joined = ground (arith, e)

woken-IsRunning :
    (d : Demo) (i : ℕ) → IsRunning d → IsRunning (record d { sync_queue = wake_up i d.sync_queue })
unfolding wake_up
woken-IsRunning d i v = record {
  order = v.order;
  counted = v.counted;
  bound = v.bound;
  five = v.five;
  sends = v.sends;
  receives = v.receives;
  full_wait = unnotified producer i _ d.sync_queue.not_full v.full_wait;
  empty_wait = unnotified consumer i _ d.sync_queue.not_empty v.empty_wait;
}

Step-IsRunning : {d e : Demo} → Step d e → IsRunning d → IsRunning e
Step-IsRunning {d} (put_datas k {q} h w e) v = put_datas-IsRunning d k q v h w e
Step-IsRunning {d} (put_waits k {q} h w e) v = put_waits-IsRunning d k q v w e
Step-IsRunning {d} (take_datas k x {q} h w e) v = take_datas-IsRunning d k x q v h w e
Step-IsRunning {d} (take_waits k {q} h w e) v = take_waits-IsRunning d k q v w e

pub Reach-IsRunning : {d : Demo} → Reach d → IsRunning d
unfolding start_demo Bounded.new_queue
Reach-IsRunning here = record {
  order = refl;
  counted = refl;
  bound = omega arith;
  five = refl;
  sends = omega arith;
  receives = omega arith;
  full_wait = inl refl;
  empty_wait = inl refl;
}
Reach-IsRunning (then_step r st) = Step-IsRunning st (Reach-IsRunning r)
Reach-IsRunning (then_woken {d} i r) = woken-IsRunning d i (Reach-IsRunning r)
