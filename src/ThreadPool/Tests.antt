-- ===== src/ThreadPool/Tests.antt =====
-- thread_pool: the theorems on a pool of one worker.
use cpp_example.Common.{◌+◌, ◌≡◌, refl, true, false, some, map, [], ◌∷◌, ◌++◌, get_elem?, arith}
use cpp_example.ThreadPool.{
  Task, Pool, exec, entering, getting, holding, worker_step, System, Step, work, submit, started,
  Reach, here, then_step, wait_for_all_done,
}
use cpp_example.ThreadPool.Single.{held_by}
use cpp_example.ThreadPool.Clients.{test2, submit_calls, lines_of, line_at, lines_in_order}
use cpp_example.ThreadPool.Order.{Reach-fifo}
use cpp_example.ThreadPool.Accounting.{count, total, has_task, Reach-conserves}
use cpp_example.ThreadPool.Waiting.{wait_returns_early}

abbrev task : Task
task = record { func = 9; expire_time = 0 }

abbrev one_worker : Pool
one_worker = record {
  tasks = [];
  workers = 1;
  pool_size = 1;
  terminate = false;
  running_count = 0;
  submitted = [];
  taken = [];
  executed = [];
  expired = [];
}

-- The worker is in get, and the task has been submitted.
abbrev pending : System
pending = record {
  pool = record one_worker { tasks = task ∷ []; submitted = task ∷ [] };
  pcs = getting ∷ [];
}

abbrev idle : System
idle = record { pool = one_worker; pcs = getting ∷ [] }

Reach-idle : Reach 1 idle
unfolding worker_step started
Reach-idle = then_step here (work 0 0 entering refl refl)

Reach-pending : Reach 1 pending
unfolding exec
Reach-pending = then_step Reach-idle (submit 0 0 9)

-- It has taken the task.
abbrev held : System
held = record {
  pool = record one_worker { submitted = task ∷ []; taken = task ∷ [] };
  pcs = holding task ∷ [];
}

Reach-held : Reach 1 held
unfolding worker_step
Reach-held = then_step Reach-pending (work 0 0 getting refl refl)

Reach-fifo_example : held.pool.taken ++ held.pool.tasks ≡ task ∷ []
Reach-fifo_example = Reach-fifo Reach-held

Reach-conserves_example :
    1
    ≡ count 9 held.pool.tasks
      + count 9 held.pool.executed
      + count 9 held.pool.expired
      + total (has_task 9) held.pcs
Reach-conserves_example = Reach-conserves 9 Reach-held

wait_returns_early_example :
    (s : System) × Step pending s
    × (wait_for_all_done s.pool true [] one_worker ≡ some true)
    × (get_elem? s.pcs 0 ≡ some (holding task))
    × (s.pool.executed ≡ [])
    × (s.pool.expired ≡ [])
wait_returns_early_example =
    wait_returns_early pending task 0 one_worker true Reach-pending refl refl refl (omega arith)

abbrev stopped : System
stopped = record pending { pool = record pending.pool { terminate = true } }

-- A task submitted to the stopped pool.
abbrev late : System
late = record stopped { pool = exec 0 0 1 stopped.pool }

-- The two tasks of test2, not yet taken.
abbrev given : System
given = record { pool = submit_calls 0 (λ n. n) test2 (started 1).pool; pcs = (started 1).pcs }

Reach-given : Reach 1 given
unfolding submit_calls test2 started
Reach-given = then_step (then_step here (submit 0 0 0)) (submit 1 0 1)

lines_in_order_example :
    (lines_of test2 given.pool.executed ++ lines_of test2 (held_by given.pcs ++ given.pool.tasks)
      ≡ map line_at test2)
    × (given.pool.expired ≡ [])
unfolding test2
lines_in_order_example = lines_in_order test2 (λ n. n) (refl, (refl, tt)) Reach-given refl
