-- ===== src/ThreadPool/Single.antt =====
-- thread_pool: a pool with one worker, as test_threadpool.cpp makes its pools.
use cpp_example.Common.{
  ℕ, zero, suc, ◌+◌, ◌==◌, ltb, ◌≤◌, ◌≡◌, ◌≢◌, refl, sym, ap, ◌∙◌, Bool, true, false, not, ◌&&◌,
  Bool-cases, inl, inr, Option, some, none, List, [], ◌∷◌, ◌++◌, append-nil, length, length-set,
  get_elem?, set, All, if◌then◌else◌, arith,
}
use cpp_example.ThreadPool.{
  Task, Pool, exec, stop_request, stop_joined, get, finish, Pc, entering, getting, holding, busy,
  leaving, exited, worker_step, System, Step, work, submit, stopping, joined, started, Reach, here,
  then_step,
}
use cpp_example.ThreadPool.Order.{Reach-fifo}

-- Tasks in the order in which they were dealt with, of which some were run and the others, which
-- have a time of expiry, were given up.
pub data Merged : List Task → List Task → List Task → Type 0 where
  no_task : Merged [] [] []
  was_run :
      {xs ys zs : List Task} (t : Task) → Merged xs ys zs → Merged (xs ++ t ∷ []) ys (zs ++ t ∷ [])
  gave_up :
      {xs ys zs : List Task} (t : Task)
      → t.expire_time ≢ 0
      → Merged xs ys zs
      → Merged xs (ys ++ t ∷ []) (zs ++ t ∷ [])

-- What a worker has in its hands.
abbrev pub held : Pc → List Task
held (holding t) = t ∷ []
held (busy t) = t ∷ []
held _ = []

abbrev pub held_by : List Pc → List Task
held_by [] = []
held_by (pc ∷ pcs) = held pc ++ held_by pcs

-- The tasks taken are those that were dealt with, and then those in the worker's hands.
abbrev InTurn : Pool → List Task → Type 0
InTurn p hands =
    (handled : List Task) × Merged p.executed p.expired handled × (handled ++ hands ≡ p.taken)

finish-InTurn : (now : ℕ) (t : Task) (p : Pool) → InTurn p (t ∷ []) → InTurn (finish now t p) []
unfolding finish
finish-InTurn now t p (handled, m, e) =
    elim (Bool-cases (not (t.expire_time == 0) && ltb t.expire_time now)) [
      | inl b ↦
          let timed : t.expire_time ≢ 0 = λ z. cc in
          (handled ++ t ∷ [], rw (b, finish) (gave_up t timed m), rw (b, finish) (append-nil _ ∙ e))
      | inr b ↦ (handled ++ t ∷ [], rw (b, finish) (was_run t m), rw (b, finish) (append-nil _ ∙ e))
    ]

moved :
    (pc pc' : Pc) (p q : Pool)
    → ◌≡◌ {A = Option (Pc × Pool)} (some (pc, p)) (some (pc', q))
    → InTurn p (held pc)
    → InTurn q (held pc')
moved pc pc' p q e h =
    let same_pc : pc ≡ pc' = cc in let same_pool : p ≡ q = cc in rw (sym same_pc, sym same_pool) h

module _ (now : ℕ) (p : Pool) where
  gets_none :
      (ts : List Task)
      → p.tasks ≡ ts
      → p.terminate ≡ true
      → worker_step now getting p ≡ some (entering, p)
  unfolding worker_step get
  gets_none [] queued on = ground (arith, queued, on)
  gets_none (t ∷ ts) queued on = ground (arith, queued, on)

  gets_task :
      (t : Task) (ts : List Task)
      → p.tasks ≡ t ∷ ts
      → p.terminate ≡ false
      → worker_step now getting p
        ≡ some (holding t, record p { tasks = ts; taken = p.taken ++ t ∷ [] })
  unfolding worker_step get
  gets_task t ts queued off = ground (arith, queued, off)

  waits_for_task : p.tasks ≡ [] → p.terminate ≡ false → worker_step now getting p ≡ none
  unfolding worker_step get
  waits_for_task queued off = ground (arith, queued, off)

get-InTurn :
    (ts : List Task) (now : ℕ) (pc' : Pc) (p q : Pool)
    → p.tasks ≡ ts
    → InTurn p []
    → worker_step now getting p ≡ some (pc', q)
    → InTurn q (held pc')
get-InTurn ts now pc' p q queued h e = elim (Bool-cases p.terminate) [
  | inl on ↦ moved entering pc' p q (sym (gets_none now p ts queued on) ∙ e) h
  | inr off ↦ of_queue ts queued off
]
  where
    of_queue : (ts : List Task) → p.tasks ≡ ts → p.terminate ≡ false → InTurn q (held pc')
    of_queue [] queued off = cc (waits_for_task now p queued off)
    of_queue (t ∷ ts) queued off =
        let (handled, m, taken) = h in
        moved (holding t) pc' (record p { tasks = ts; taken = p.taken ++ t ∷ [] }) q
          (sym (gets_task now p t ts queued off) ∙ e)
          (handled, m, ap (λ l. l ++ t ∷ []) (sym (append-nil handled) ∙ taken))

entering_hands : (b : Bool) → held (if b then exited else getting) ≡ []
entering_hands true = refl
entering_hands false = refl

worker_step-InTurn :
    (now : ℕ) (pc pc' : Pc) (p q : Pool)
    → InTurn p (held pc)
    → worker_step now pc p ≡ some (pc', q)
    → InTurn q (held pc')
unfolding worker_step
worker_step-InTurn now entering pc' p q h e =
    moved (if p.terminate then exited else getting) pc' p q e (rw (entering_hands p.terminate) h)
worker_step-InTurn now getting pc' p q h e = get-InTurn p.tasks now pc' p q refl h e
worker_step-InTurn now (holding t) pc' p q h e =
    moved (busy t) pc' (record p { running_count = p.running_count + 1 }) q e h
worker_step-InTurn now (busy t) pc' p q h e =
    moved leaving pc' (finish now t p) q e (finish-InTurn now t p h)
worker_step-InTurn now leaving pc' p q h e = moved entering pc' p q e h
worker_step-InTurn now exited pc' p q h e = cc

-- The one worker, or none once it was joined.
abbrev Alone : System → Type 0
Alone s = (length s.pcs ≤ 1) × InTurn s.pool (held_by s.pcs)

work-Alone :
    (pcs : List Pc) (i now : ℕ) (pc pc' : Pc) (p q : Pool)
    → length pcs ≤ 1
    → InTurn p (held_by pcs)
    → get_elem? pcs i ≡ some pc
    → worker_step now pc p ≡ some (pc', q)
    → InTurn q (held_by (set pcs i pc'))
work-Alone [] i now pc pc' p q few h at e = cc
work-Alone (x ∷ y ∷ pcs) i now pc pc' p q few h at e = absurd (omega (arith, few))
work-Alone (x ∷ []) (suc i) now pc pc' p q few h at e = cc
work-Alone (x ∷ []) zero now pc pc' p q few h at e =
    let same : x ≡ pc = cc in
    let before : InTurn p (held pc) = rw (same, append-nil (held pc)) at h in
    rw (append-nil (held pc')) (worker_step-InTurn now pc pc' p q before e)

exited_hands : (pcs : List Pc) → All (λ pc. pc ≡ exited) pcs → held_by pcs ≡ []
exited_hands [] a = refl
exited_hands (pc ∷ pcs) a = rw (a.0) (exited_hands pcs a.1)

Step-Alone : {s t : System} → Step s t → Alone s → Alone t
unfolding exec stop_request stop_joined
Step-Alone {s} (work i now pc {pc'} {p} at e) (few, h) =
    (omega (arith, few, length-set s.pcs i pc'), work-Alone s.pcs i now pc pc' s.pool p few h at e)
Step-Alone {s} (submit now timeout_ms func) a = a
Step-Alone stopping a = a
Step-Alone {s} (joined all) (few, h) = (omega arith, rw (exited_hands s.pcs all) at h)

Reach-Alone : {s : System} → Reach 1 s → Alone s
unfolding started
Reach-Alone here = (omega arith, ([], no_task, refl))
Reach-Alone (then_step r st) = Step-Alone st (Reach-Alone r)

-- With one worker, in any interleaving with the threads that call exec and stop, the tasks were
-- dealt with in the order in which they were submitted: those that were run or, having a time of
-- expiry, given up, then the one in the worker's hands, then the queue, are all that were submitted.
pub one_worker_in_order :
    {s : System}
    → Reach 1 s
    → (handled : List Task) × Merged s.pool.executed s.pool.expired handled
      × (handled ++ held_by s.pcs ++ s.pool.tasks ≡ s.pool.submitted)
one_worker_in_order {s} r =
    let (few, (handled, m, taken)) = Reach-Alone r in
    (handled, m, ap (λ l. l ++ s.pool.tasks) taken ∙ Reach-fifo r)
