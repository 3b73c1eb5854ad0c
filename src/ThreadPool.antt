-- ===== src/ThreadPool.antt =====
-- thread_pool/demo_threadpool.h and demo_threadpool.cpp: the pool, its methods, and its worker
-- threads in any interleaving. What happens under `_pool_mutex` is one step; a wait on the
-- condition variable is a step that is not possible before its predicate holds. Times are
-- milliseconds and do not wrap; a task is a number with its time of expiry.
pub mod Order
pub mod Accounting
pub mod Waiting
pub mod Single
pub mod Clients
mod Tests
use cpp_example.Common.{
  ℕ, zero, suc, ◌+◌, ◌-◌, ◌==◌, ltb, ◌≡◌, Bool, true, false, not, ◌&&◌, Option, none, some, List,
  [], ◌∷◌, ◌++◌, length, get_elem?, set, replicate, All, if◌then◌else◌,
}

pub record Task : Type 0 where
  pub func : ℕ
  pub expire_time : ℕ

-- The members of the class, the number of workers started, and a log of the tasks: those given to
-- exec, those taken by a worker, those run, and those given up as expired.
pub record Pool : Type 0 where
  pub tasks : List Task
  pub workers : ℕ
  pub pool_size : ℕ
  pub terminate : Bool
  pub running_count : ℕ
  pub submitted : List Task
  pub taken : List Task
  pub executed : List Task
  pub expired : List Task

unfoldable pub new_pool : Pool
new_pool = record {
  tasks = [];
  workers = 0;
  pool_size = 1;
  terminate = false;
  running_count = 0;
  submitted = [];
  taken = [];
  executed = [];
  expired = [];
}

unfoldable pub initial : ℕ → Pool → Pool × Bool
initial num p = if not (p.workers == 0) then (p, false) else (record p { pool_size = num }, true)

-- `start` returns false also when it has started the workers.
unfoldable pub start : Pool → Pool × Bool
start p = if not (p.workers == 0) then (p, false) else (record p { workers = p.pool_size }, false)

unfoldable pub get_pool_size : Pool → ℕ
get_pool_size p = p.pool_size

unfoldable pub get_pending_task : Pool → ℕ
get_pending_task p = length p.tasks

-- exec at time `now`; with no timeout argument it is 0.
unfoldable pub exec : ℕ → ℕ → ℕ → Pool → Pool
exec now timeout_ms func p =
    let task : Task = record {
      func = func;
      expire_time = if timeout_ms == 0 then 0 else now + timeout_ms;
    } in
    record p { tasks = p.tasks ++ task ∷ []; submitted = p.submitted ++ task ∷ [] }

-- The first part of stop, under the lock, and the last, once all workers are joined.
unfoldable pub stop_request : Pool → Pool
stop_request p = record p { terminate = true }

unfoldable pub stop_joined : Pool → Pool
stop_joined p = record p { workers = 0 }

-- `get`: the task, none for the result false; not possible while it waits.
unfoldable pub get : Pool → Option (Pool × Option Task)
get p = elim p.tasks [
  | [] ↦ if p.terminate then some (p, none) else none
  | t ∷ rest ↦
      if p.terminate
      then some (p, none)
      else some (record p { tasks = rest; taken = p.taken ++ t ∷ [] }, some t)
]

-- Where a worker stands in `run`.
pub data Pc : Type 0 where
  entering : Pc  -- at the test of the loop
  getting : Pc  -- in get
  holding : Task → Pc  -- before ++running_count
  busy : Task → Pc  -- behind it
  leaving : Pc  -- behind --running_count
  exited : Pc

-- The test for a timeout, and what becomes of the task.
unfoldable pub finish : ℕ → Task → Pool → Pool
finish now t p =
    if not (t.expire_time == 0) && ltb t.expire_time now
    then record p { expired = p.expired ++ t ∷ []; running_count = p.running_count - 1 }
    else record p { executed = p.executed ++ t ∷ []; running_count = p.running_count - 1 }

-- One step of a worker at time `now`, if it is not blocked.
unfoldable pub worker_step : ℕ → Pc → Pool → Option (Pc × Pool)
unfolding get finish
worker_step now entering p = some (if p.terminate then exited else getting, p)
worker_step now getting p = elim (get p) [
  | none ↦ none
  | some (q, none) ↦ some (entering, q)
  | some (q, some t) ↦ some (holding t, q)
]
worker_step now (holding t) p = some (busy t, record p { running_count = p.running_count + 1 })
worker_step now (busy t) p = some (leaving, finish now t p)
worker_step now leaving p = some (entering, p)
worker_step now exited p = none

pub record System : Type 0 where
  pub pool : Pool
  pub pcs : List Pc

-- Any worker moves, or a client of the pool calls exec or stop.
pub data Step (s : System) : System → Type 0 where
  work :
      (i now : ℕ) (pc : Pc) {pc' : Pc} {p : Pool}
      → get_elem? s.pcs i ≡ some pc
      → worker_step now pc s.pool ≡ some (pc', p)
      → Step s (record { pool = p; pcs = set s.pcs i pc' })
  submit : (now timeout_ms func : ℕ) → Step s (record s { pool = exec now timeout_ms func s.pool })
  stopping : Step s (record s { pool = stop_request s.pool })
  joined : All (λ pc. pc ≡ exited) s.pcs → Step s (record { pool = stop_joined s.pool; pcs = [] })

-- The pool as `initial n` and `start` leave it, with its workers at the head of their loops.
unfoldable pub started : ℕ → System
unfolding new_pool initial start
started n = record {
  pool = (start (initial n new_pool).0).0;
  pcs = replicate (start (initial n new_pool).0).0.workers entering;
}

pub data Reach (n : ℕ) : System → Type 0 where
  here : Reach n (started n)
  then_step : {s t : System} → Reach n s → Step s t → Reach n t

-- wait_for_all_done: at the call, then at each wake-up, and for a timeout at its end. `none` while
-- it still waits.
unfoldable pub woken : List Pool → Option Bool
woken [] = none
woken (p ∷ ps) = elim p.tasks [ [] ↦ some true | t ∷ ts ↦ woken ps ]

unfoldable pub wait_for_all_done : Pool → Bool → List Pool → Pool → Option Bool
unfolding woken
wait_for_all_done p forever wakes last = elim p.tasks [
  | [] ↦ some true
  | t ∷ ts ↦ elim (woken wakes) [
    | some b ↦ some b
    | none ↦ if forever then none else some (get_pending_task last == 0)
  ]
]
