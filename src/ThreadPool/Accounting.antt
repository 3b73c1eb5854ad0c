-- ===== src/ThreadPool/Accounting.antt =====
-- thread_pool: what becomes of each task, and what the counter of running tasks counts.
use cpp_example.Common.{
  ℕ, zero, suc, ◌+◌, ◌≤◌, ◌==◌, ◌≡◌, refl, sym, ap, some, List, [], ◌∷◌, ◌++◌, arith, get_elem?,
  set, All, if◌then◌else◌, replicate,
}
use cpp_example.ThreadPool.{
  Task, Pool, exec, stop_request, stop_joined, Pc, entering, getting, holding, busy, leaving,
  exited, worker_step, System, Step, work, submit, stopping, joined, started, Reach, here,
  then_step,
}
use cpp_example.ThreadPool.Order.{Reach-fifo}

module _ {ℓ} {A : Type ℓ} (w : A → ℕ) where
  abbrev pub total : List A → ℕ
  total [] = 0
  total (x ∷ xs) = w x + total xs

  total-set :
      (l : List A) (i : ℕ) (x y : A)
      → get_elem? l i ≡ some x
      → (total (set l i y) + w x ≡ total l + w y) × (w x ≤ total l)
  total-set [] i x y e = cc
  total-set (z ∷ l) zero x y e = ground arith
  total-set (z ∷ l) (suc i) x y e =
      let (sum, part) = total-set l i x y e in (omega arith, omega arith)

  total-append : (xs ys : List A) → total (xs ++ ys) ≡ total xs + total ys
  total-append [] ys = omega arith
  total-append (x ∷ xs) ys = omega (arith, total-append xs ys)

  total-replicate : (n : ℕ) (x : A) → w x ≡ 0 → total (replicate n x) ≡ 0
  total-replicate zero x e = refl
  total-replicate (suc n) x e = omega (arith, total-replicate n x e)

abbrev pub is_busy : Pc → ℕ
is_busy (busy t) = 1
is_busy _ = 0

-- One for a task with the number `k`.
abbrev pub is_task : ℕ → Task → ℕ
is_task k t = if t.func == k then 1 else 0

abbrev pub has_task : ℕ → Pc → ℕ
has_task k (holding t) = is_task k t
has_task k (busy t) = is_task k t
has_task k _ = 0

abbrev pub count : ℕ → List Task → ℕ
count k = total (is_task k)

abbrev IsCounted : Pool → ℕ → Type 0
IsCounted p n = p.running_count ≡ n

worker_step-counts :
    (now : ℕ) (pc pc' : Pc) (p q : Pool)
    → is_busy pc ≤ p.running_count
    → worker_step now pc p ≡ some (pc', q)
    → q.running_count + is_busy pc ≡ p.running_count + is_busy pc'
unfolding worker_step
worker_step-counts now entering pc' p q h e = ground arith
worker_step-counts now getting pc' p q h e = by_tasks p.tasks refl
  where
    by_tasks :
        (ts : List Task)
        → p.tasks ≡ ts
        → q.running_count + is_busy getting ≡ p.running_count + is_busy pc'
    by_tasks [] h = ground (arith, h)
    by_tasks (t ∷ ts) h = ground (arith, h)
worker_step-counts now (holding t) pc' p q h e = ground arith
worker_step-counts now (busy t) pc' p q h e = ground arith
worker_step-counts now leaving pc' p q h e = ground arith
worker_step-counts now exited pc' p q h e = absurd (ground arith)

-- A worker's step keeps the balance of the tasks with a number.
worker_step-balances :
    (k now : ℕ) (pc pc' : Pc) (p q : Pool)
    → worker_step now pc p ≡ some (pc', q)
    → count k q.executed + count k q.expired + has_task k pc' + count k p.taken
      ≡ count k p.executed + count k p.expired + has_task k pc + count k q.taken
unfolding worker_step
worker_step-balances k now entering pc' p q e = ground arith
worker_step-balances k now getting pc' p q e = by_tasks p.tasks refl
  where
    by_tasks :
        (ts : List Task)
        → p.tasks ≡ ts
        → count k q.executed + count k q.expired + has_task k pc' + count k p.taken
          ≡ count k p.executed + count k p.expired + has_task k getting + count k q.taken
    by_tasks [] h = ground (arith, h)
    by_tasks (t ∷ ts) h = ground (arith, h, total-append (is_task k) p.taken (t ∷ []))
worker_step-balances k now (holding t) pc' p q e = ground arith
worker_step-balances k now (busy t) pc' p q e = ground (
  arith,
  total-append (is_task k) p.executed (t ∷ []),
  total-append (is_task k) p.expired (t ∷ []),
)
worker_step-balances k now leaving pc' p q e = ground arith
worker_step-balances k now exited pc' p q e = absurd (ground arith)

-- The counter is the number of workers between its two updates; each task taken is run, expired,
-- or in the hands of one worker.
pub record IsAccounted (s : System) : Type 0 where
  pub running : s.pool.running_count ≡ total is_busy s.pcs
  pub balanced :
      (k : ℕ)
      → count k s.pool.taken
        ≡ count k s.pool.executed + count k s.pool.expired + total (has_task k) s.pcs

total-exited : (w : Pc → ℕ) (l : List Pc) → w exited ≡ 0 → All (λ pc. pc ≡ exited) l → total w l ≡ 0
total-exited w [] e h = refl
total-exited w (pc ∷ l) e h = omega (arith, ap w h.0, total-exited w l e h.1)

Step-IsAccounted : {s t : System} → Step s t → IsAccounted s → IsAccounted t
unfolding exec stop_request stop_joined
Step-IsAccounted {s} (work i now pc {pc'} {p} at e) a = record {
  running =
      let (sum, part) = total-set is_busy s.pcs i pc pc' at in
      omega (arith, a.running, worker_step-counts now pc pc' s.pool p (omega (arith, a.running)) e);
  balanced = λ k.
      let (sum, part) = total-set (has_task k) s.pcs i pc pc' at in
      omega (arith, a.balanced k, worker_step-balances k now pc pc' s.pool p e);
}
Step-IsAccounted (submit now timeout_ms func) a = record {
  running = a.running;
  balanced = a.balanced;
}
Step-IsAccounted stopping a = record { running = a.running; balanced = a.balanced }
Step-IsAccounted {s} (joined all) a = record {
  running = omega (arith, a.running, total-exited is_busy s.pcs refl all);
  balanced = λ k. omega (arith, a.balanced k, total-exited (has_task k) s.pcs refl all);
}

pub Reach-IsAccounted : {n : ℕ} {s : System} → Reach n s → IsAccounted s
unfolding started
Reach-IsAccounted {n} here = record {
  running = sym (total-replicate is_busy n entering refl);
  balanced = λ k. omega (arith, total-replicate (has_task k) n entering refl);
}
Reach-IsAccounted (then_step r st) = Step-IsAccounted st (Reach-IsAccounted r)

-- No task is lost or run twice: at any time each number submitted stands as often among the tasks
-- queued, run, expired and held by a worker together.
pub Reach-conserves :
    {n : ℕ} {s : System} (k : ℕ)
    → Reach n s
    → count k s.pool.submitted
      ≡ count k s.pool.tasks
        + count k s.pool.executed
        + count k s.pool.expired
        + total (has_task k) s.pcs
Reach-conserves {s} k r = omega (
  arith,
  (Reach-IsAccounted r).balanced k,
  ap (count k) (Reach-fifo r),
  total-append (is_task k) s.pool.taken s.pool.tasks,
)
