-- ===== src/ThreadPool/Order.antt =====
-- thread_pool: tasks are taken in the order in which they were given.
use cpp_example.Common.{ℕ, ◌≡◌, refl, sym, ap, ◌∙◌, some, List, [], ◌∷◌, ◌++◌, append_assoc, arith}
use cpp_example.ThreadPool.{
  Task, Pool, exec, stop_request, stop_joined, Pc, entering, getting, holding, busy, leaving,
  exited, worker_step, System, Step, work, submit, stopping, joined, started, Reach, here,
  then_step,
}

-- The tasks taken so far, with those still in the queue behind them, are those submitted.
abbrev pub IsFifo : Pool → Type 0
IsFifo p = p.taken ++ p.tasks ≡ p.submitted

worker_step-IsFifo :
    (now : ℕ) (pc pc' : Pc) (p q : Pool)
    → IsFifo p
    → worker_step now pc p ≡ some (pc', q)
    → IsFifo q
unfolding worker_step
worker_step-IsFifo now entering pc' p q f e = ground arith
worker_step-IsFifo now getting pc' p q f e = by_tasks p.tasks refl
  where
    by_tasks : (ts : List Task) → p.tasks ≡ ts → IsFifo q
    by_tasks [] h = ground (arith, h)
    by_tasks (t ∷ ts) h = ground (arith, h, append_assoc p.taken (t ∷ []) ts)
worker_step-IsFifo now (holding t) pc' p q f e = ground arith
worker_step-IsFifo now (busy t) pc' p q f e = ground arith
worker_step-IsFifo now leaving pc' p q f e = ground arith
worker_step-IsFifo now exited pc' p q f e = absurd (ground arith)

fifo_snoc : (a b c d : List Task) → a ++ b ≡ c → a ++ (b ++ d) ≡ c ++ d
fifo_snoc a b c d e = sym (append_assoc a b d) ∙ ap (λ l. l ++ d) e

Step-IsFifo : {s t : System} → Step s t → IsFifo s.pool → IsFifo t.pool
unfolding exec stop_request stop_joined
Step-IsFifo {s} (work i now pc {pc'} {p} at e) f = worker_step-IsFifo now pc pc' s.pool p f e
Step-IsFifo {s} (submit now timeout_ms func) f = fifo_snoc _ _ _ _ f
Step-IsFifo stopping f = f
Step-IsFifo (joined all) f = f

-- Whatever the interleaving, tasks are taken first in, first out: at any time the tasks taken by
-- workers, followed by those in the queue, are those submitted, in order.
pub Reach-fifo : {n : ℕ} {s : System} → Reach n s → s.pool.taken ++ s.pool.tasks ≡ s.pool.submitted
unfolding started
Reach-fifo here = refl
Reach-fifo (then_step r st) = Step-IsFifo st (Reach-fifo r)
