-- ===== src/ThreadPool/Waiting.antt =====
-- thread_pool: what wait_for_all_done and stop promise.
use cpp_example.Common.{
  ℕ, ◌+◌, ◌<◌, ◌≡◌, refl, ap, Bool, true, false, some, List, [], ◌∷◌, ◌++◌, arith, get_elem?, set,
  get_elem?-set_self, length,
}
use cpp_example.ThreadPool.{
  Task, Pool, exec, stop_request, stop_joined, Pc, entering, getting, holding, busy, leaving,
  exited, worker_step, System, Step, work, submit, stopping, joined, Reach, wait_for_all_done,
}
use cpp_example.ThreadPool.Accounting.{has_task, count, total, Reach-conserves}

-- wait_for_all_done does not wait for the last task: in a reachable state that is not stopped, with
-- one task queued and a worker in get, one step leads to a state in which it returns true while the
-- task is held and has not been run.
pub wait_returns_early :
    {n : ℕ} (s : System) (t : Task) (i : ℕ) (last : Pool) (forever : Bool)
    → Reach n s
    → s.pool.tasks ≡ t ∷ []
    → s.pool.terminate ≡ false
    → get_elem? s.pcs i ≡ some getting
    → i < length s.pcs
    → (s' : System) × Step s s'
      × (wait_for_all_done s'.pool forever [] last ≡ some true)
      × (get_elem? s'.pcs i ≡ some (holding t))
      × (s'.pool.executed ≡ s.pool.executed)
      × (s'.pool.expired ≡ s.pool.expired)
unfolding worker_step wait_for_all_done
wait_returns_early s t i last forever r queued on at inside = (
  record {
    pool = record s.pool { tasks = []; taken = s.pool.taken ++ t ∷ [] };
    pcs = set s.pcs i (holding t);
  },
  work i 0 getting at (ground (arith, queued, on)),
  refl,
  get_elem?-set_self s.pcs i (holding t) inside,
  refl,
  refl,
)

-- If the queue is empty and no worker has a task, then each task submitted has been run or has
-- expired, as often as it was submitted.
pub quiet_means_done :
    {n : ℕ} (s : System) (k : ℕ)
    → Reach n s
    → s.pool.tasks ≡ []
    → total (has_task k) s.pcs ≡ 0
    → count k s.pool.submitted ≡ count k s.pool.executed + count k s.pool.expired
quiet_means_done s k r empty idle = omega (arith, Reach-conserves k r, ap (count k) empty)

-- Once stop has set the flag no worker takes a task, whatever is submitted: what is queued stays.
pub stop_abandons :
    {s t : System}
    → Step s t
    → s.pool.terminate ≡ true
    → (t.pool.terminate ≡ true) × (t.pool.taken ≡ s.pool.taken)
unfolding worker_step exec stop_request stop_joined
stop_abandons {s} (work i now pc {pc'} {p} at e) on = by_pc pc e
  where
    by_tasks :
        (ts : List Task)
        → s.pool.tasks ≡ ts
        → worker_step now getting s.pool ≡ some (pc', p)
        → (p.terminate ≡ true) × (p.taken ≡ s.pool.taken)
    by_tasks [] h e = ground (arith, h)
    by_tasks (t ∷ ts) h e = ground (arith, h)

    by_pc :
        (pc : Pc)
        → worker_step now pc s.pool ≡ some (pc', p)
        → (p.terminate ≡ true) × (p.taken ≡ s.pool.taken)
    by_pc entering e = ground arith
    by_pc getting e = by_tasks s.pool.tasks refl e
    by_pc (holding t) e = ground arith
    by_pc (busy t) e = ground arith
    by_pc leaving e = ground arith
    by_pc exited e = absurd (ground arith)
stop_abandons (submit now timeout_ms func) on = (on, refl)
stop_abandons stopping on = (refl, refl)
stop_abandons (joined all) on = (on, refl)
