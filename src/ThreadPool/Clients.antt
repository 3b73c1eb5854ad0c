-- ===== src/ThreadPool/Clients.antt =====
-- thread_pool/test_threadpool.cpp: the tasks of the three tests, and what they print in their pools
-- of one worker. Strings are lists of bytes.
use cpp_example.Common.{
  ℕ, suc, ◌+◌, ◌≡◌, refl, sym, ap, ◌∙◌, some, none, List, [], ◌∷◌, ◌++◌, append_assoc, append-nil,
  length, length-append, ◌==◌, if◌then◌else◌, Option-cases, inl, inr, map, get_elem?, All,
  All-append, arith,
}
use cpp_example.ThreadPool.{Task, Pool, exec, System, started, Reach}
use cpp_example.ThreadPool.Single.{Merged, no_task, was_run, gave_up, held_by, one_worker_in_order}

-- What a function of the tests prints.
pub data Line : Type 0 where
  func0 : Line
  func1 : ℕ → Line
  func2 func2_future : ℕ → List ℕ → Line
  test : List ℕ → ℕ → Line

-- A call of exec: the time limit, and what the function prints.
pub record Call : Type 0 where
  pub timeout_ms : ℕ
  pub line : Line

abbrev call : ℕ → Line → Call
call t l = record { timeout_ms = t; line = l }

abbrev darren : List ℕ
darren = 100 ∷ 97 ∷ 114 ∷ 114 ∷ 101 ∷ 110 ∷ []

unfoldable pub test1 : List Call
test1 = call 1000 func0 ∷ call 0 (func1 10) ∷ call 0 (func2 20 darren) ∷ []

unfoldable pub test2 : List Call
test2 = call 0 (func1 10) ∷ call 0 (func2_future 20 darren) ∷ []

-- The names are those that setName gave to the two objects, which the bound pointers still find.
unfoldable pub test3 : List Call
test3 =
    call 0 (test (84 ∷ 101 ∷ 115 ∷ 116 ∷ 49 ∷ []) 10)
    ∷ call 0 (test (84 ∷ 101 ∷ 115 ∷ 116 ∷ 50 ∷ []) 20)
    ∷ []

-- The calls in their order, each at its time; a task is known by the number of its call.
unfoldable pub submit_calls : ℕ → (ℕ → ℕ) → List Call → Pool → Pool
submit_calls n time [] p = p
submit_calls n time (c ∷ cs) p = submit_calls (suc n) time cs (exec (time n) c.timeout_ms n p)

-- What the tasks of a list of calls print.
unfoldable pub lines_of : List Call → List Task → List Line
lines_of cs [] = []
lines_of cs (t ∷ ts) = elim (get_elem? cs t.func) [
  | none ↦ lines_of cs ts
  | some c ↦ c.line ∷ lines_of cs ts
]

abbrev pub IsUntimed : Task → Type 0
IsUntimed t = t.expire_time ≡ 0

All-before : (xs ys : List Task) → All IsUntimed (xs ++ ys) → All IsUntimed xs
All-before [] ys a = tt
All-before (x ∷ xs) ys a = (a.0, All-before xs ys a.1)

All-after : (xs ys : List Task) → All IsUntimed (xs ++ ys) → All IsUntimed ys
All-after [] ys a = a
All-after (x ∷ xs) ys a = All-after xs ys a.1

-- Tasks without a time of expiry are all run.
untimed_run : {xs ys zs : List Task} → Merged xs ys zs → All IsUntimed zs → (xs ≡ zs) × (ys ≡ [])
untimed_run no_task a = (refl, refl)
untimed_run (was_run {xs} {ys} {zs} t m) a =
    let (same, none_left) = untimed_run m (All-before zs (t ∷ []) a) in
    (ap (λ l. l ++ t ∷ []) same, none_left)
untimed_run (gave_up {xs} {ys} {zs} t timed m) a = absurd (timed (All-after zs (t ∷ []) a).0)

lines_of-append :
    (cs : List Call) (xs ys : List Task) → lines_of cs (xs ++ ys) ≡ lines_of cs xs ++ lines_of cs ys
unfolding lines_of
lines_of-append cs [] ys = refl
lines_of-append cs (t ∷ ts) ys = elim (Option-cases (get_elem? cs t.func)) [
  | inl e ↦ rw (e, lines_of) (lines_of-append cs ts ys)
  | inr (c, e) ↦ rw (e, lines_of) (ap (◌∷◌ c.line) (lines_of-append cs ts ys))
]

abbrev pub line_at : Call → Line
line_at c = c.line

get_elem?-middle :
    (before cs : List Call) (c : Call) → get_elem? (before ++ c ∷ cs) (length before) ≡ some c
get_elem?-middle [] cs c = refl
get_elem?-middle (b ∷ before) cs c = get_elem?-middle before cs c

lines_of_one :
    (cs : List Call) (c : Call) (t : Task)
    → get_elem? cs t.func ≡ some c
    → lines_of cs (t ∷ []) ≡ c.line ∷ []
unfolding lines_of
lines_of_one cs c t e = rw (e, lines_of) refl

abbrev task_of : ℕ → ℕ → Call → Task
task_of n now c = record {
  func = n;
  expire_time = if c.timeout_ms == 0 then 0 else now + c.timeout_ms;
}

-- The tasks that calls submit print the lines of the calls, in their order.
submitted_lines :
    (before cs : List Call) (n : ℕ) (time : ℕ → ℕ) (p : Pool)
    → n ≡ length before
    → lines_of (before ++ cs) (submit_calls n time cs p).submitted
      ≡ lines_of (before ++ cs) p.submitted ++ map line_at cs
unfolding submit_calls exec
submitted_lines before [] n time p e = sym (append-nil (lines_of (before ++ []) p.submitted))
submitted_lines before (c ∷ cs) n time p e =
    let t = task_of n (time n) c in
    let all_calls = before ++ c ∷ cs in
    let here : lines_of all_calls (p.submitted ++ t ∷ [])
        ≡ lines_of all_calls p.submitted ++ c.line ∷ [] =
      lines_of-append all_calls p.submitted (t ∷ [])
      ∙ ap (λ l. lines_of all_calls p.submitted ++ l)
          (lines_of_one all_calls c t
            (ap (get_elem? all_calls) e ∙ get_elem?-middle before cs c)) in
    let later =
      submitted_lines (before ++ c ∷ []) cs (suc n) time (exec (time n) c.timeout_ms n p)
        one_more in
    (rw (append_assoc before (c ∷ []) cs) at later)
    ∙ ap (λ l. l ++ map line_at cs) here
    ∙ append_assoc (lines_of all_calls p.submitted) (c.line ∷ []) (map line_at cs)
  where
    one_more : suc n ≡ length (before ++ c ∷ [])
    one_more = omega (arith, e, length-append before (c ∷ []))

-- Calls without a time limit.
abbrev pub HasNoLimit : Call → Type 0
HasNoLimit c = c.timeout_ms ≡ 0

submitted-IsUntimed :
    (cs : List Call) (n : ℕ) (time : ℕ → ℕ) (p : Pool)
    → All HasNoLimit cs
    → All IsUntimed p.submitted
    → All IsUntimed (submit_calls n time cs p).submitted
unfolding submit_calls exec
submitted-IsUntimed [] n time p h a = a
submitted-IsUntimed (c ∷ cs) n time p h a =
    submitted-IsUntimed cs (suc n) time (exec (time n) c.timeout_ms n p) h.1
      (All-append IsUntimed p.submitted _ a (rw (h.0) refl, tt))

-- If the tasks that a pool of one worker was given are those of calls without time limit, as in
-- test2 and test3, then in any interleaving the lines that were printed, followed by those of the
-- tasks that the worker has and that are queued, are the lines of the calls in their order; none
-- is given up.
pub lines_in_order :
    (cs : List Call) (time : ℕ → ℕ) {s : System}
    → All HasNoLimit cs
    → Reach 1 s
    → s.pool.submitted ≡ (submit_calls 0 time cs (started 1).pool).submitted
    → (lines_of cs s.pool.executed ++ lines_of cs (held_by s.pcs ++ s.pool.tasks) ≡ map line_at cs)
      × (s.pool.expired ≡ [])
unfolding started lines_of
lines_in_order cs time {s} h r e =
    let (handled, m, order) = one_worker_in_order r in
    let untimed : All IsUntimed s.pool.submitted =
      rw e (submitted-IsUntimed cs 0 time (started 1).pool h tt) in
    let split = rw (sym order) at untimed in
    let (same, none_left) = untimed_run m (
      All-before handled (held_by s.pcs)
        (All-before (handled ++ held_by s.pcs) s.pool.tasks split)) in
    (
      ap (λ l. lines_of cs l ++ lines_of cs (held_by s.pcs ++ s.pool.tasks)) same
          ∙ sym (lines_of-append cs handled (held_by s.pcs ++ s.pool.tasks))
          ∙ ap (lines_of cs) (sym (append_assoc handled (held_by s.pcs) s.pool.tasks) ∙ order ∙ e)
          ∙ submitted_lines [] cs 0 time (started 1).pool refl,
      none_left,
    )
