-- ===== src/Locks/Counted.antt =====
-- mutex/demo1_mutex.cpp: no increment is lost, and the threads come to their end.
use cpp_example.Common.{
  ℕ, zero, suc, ◌+◌, ◌*◌, ◌≤◌, ◌==◌, ==_iff, ◌≡◌, ◌⊎◌, inl, inr, refl, sym, ◌∙◌, false, Bool-cases,
  none, some, Option-cases, List, [], ◌∷◌, length, get_elem?, set, replicate, length-replicate,
  arith,
}
use native.Mathlib.Nat.{suc-mul, mul-add, mul-one}
use cpp_example.Ownership.Scope.{weigh}
use cpp_example.Locks.Counter.{
  Place, locking, reading, writing, unlocking, Thread, Shared, to_lock, lock_step, thread_step,
  step, run, start,
}
use cpp_example.Locks.Held.{
  Within, passes_of, made, progress, IsInside, IsSound, Stepped, step-Stepped,
}

weigh-replicate : {A : Type 0} (f : A → ℕ) (n : ℕ) (a : A) → weigh f (replicate n a) ≡ n * f a
weigh-replicate f zero a = omega arith
weigh-replicate f (suc n) a = omega (arith, weigh-replicate f n a, suc-mul n (f a))

get_elem?-replicate :
    {A : Type 0} (n i : ℕ) (a : A) {x : A} → get_elem? (replicate n a) i ≡ some x → x ≡ a
get_elem?-replicate zero i a e = cc
get_elem?-replicate (suc n) zero a e = cc
get_elem?-replicate (suc n) (suc i) a e = get_elem?-replicate n i a e

weigh-bound :
    {A : Type 0} (f : A → ℕ) (m : ℕ) (xs : List A)
    → ((i : ℕ) (x : A) → get_elem? xs i ≡ some x → f x ≤ m)
    → weigh f xs ≤ length xs * m
weigh-bound f m [] h = omega arith
weigh-bound f m (x ∷ xs) h =
    omega (arith, suc-mul (length xs) m, h 0 x refl, weigh-bound f m xs (λ i y e. h (suc i) y e))

start-IsSound : (n rounds : ℕ) → IsSound n rounds (start n)
unfolding start
start-IsSound n rounds = record {
  within = λ i t e. rw (get_elem?-replicate n i (to_lock 0) e) tt;
  held = λ i e. cc;
  counted = omega (arith, weigh-replicate passes_of n (to_lock 0), zero_passes);
  bounded = λ i t e. rw (get_elem?-replicate n i (to_lock 0) e) (omega arith);
  many = length-replicate n (to_lock 0);
}
  where
    zero_passes : n * 0 ≡ 0
    zero_passes = omega arith

start-progress : (n : ℕ) → weigh progress (start n).threads ≡ n
unfolding start
start-progress n = omega (arith, weigh-replicate progress n (to_lock 0), mul-one n)

run_sound :
    {n rounds : ℕ} (is : List ℕ) (s s' : Shared)
    → IsSound n rounds s
    → run rounds is s ≡ some s'
    → IsSound n rounds s' × (weigh progress s'.threads ≡ weigh progress s.threads + length is)
unfolding run Stepped
run_sound [] s s' ok e = let same : s ≡ s' = cc in rw (sym same) (ok, omega arith)
run_sound {n} {rounds} (i ∷ is) s s' ok e = elim (Option-cases (step rounds i s)) [
  | inl h ↦ let stuck : none ≡ some s' = rw (h, run) at e in cc
  | inr (s1, h) ↦
      let (ok', more) = step-Stepped {n = n} {rounds = rounds} i s s1 ok h in
      let (ok'', rest) = run_sound is s1 s' ok' (rw (h, run) at e) in
      (ok'', omega (arith, more, rest))
]

-- A thread with a pass left, or all passes are made.
unfinished :
    (rounds : ℕ) (xs : List Thread)
    → ((i : ℕ) × (t : Thread) × (get_elem? xs i ≡ some t) × ((t.passes == rounds) ≡ false))
      ⊎ (weigh passes_of xs ≡ length xs * rounds)
unfinished rounds [] = inr (omega arith)
unfinished rounds (x ∷ xs) = elim (Bool-cases (x.passes == rounds)) [
  | inr b ↦ inl (0, x, refl, b)
  | inl b ↦ elim (unfinished rounds xs) [
    | inl (i, t, e, b') ↦ inl (suc i, t, e, b')
    | inr rest ↦ inr (omega (arith, rest, suc-mul (length xs) rounds, (==_iff x.passes rounds).0 b))
  ]
]

step_at :
    (rounds i : ℕ) (t : Thread) (s : Shared)
    → get_elem? s.threads i ≡ some t
    → step rounds i s ≡ thread_step rounds i t s
unfolding step
step_at rounds i t s e = rw (e, step) refl

-- The thread that holds the lock can go on.
inside_goes_on :
    (rounds i passes : ℕ) (p : Place) (s : Shared)
    → get_elem? s.threads i ≡ some (record { place = p; passes = passes })
    → IsInside p
    → (s' : Shared) × (step rounds i s ≡ some s')
unfolding step thread_step
inside_goes_on rounds i passes locking s e inside = elim inside [ ]
inside_goes_on rounds i passes reading s e inside = (_, step_at rounds i _ s e)
inside_goes_on rounds i passes (writing v) s e inside = (_, step_at rounds i _ s e)
inside_goes_on rounds i passes unlocking s e inside = (_, step_at rounds i _ s e)

-- A thread with a pass left can take the lock, if none holds it.
free_goes_on :
    (rounds i passes : ℕ) (p : Place) (s : Shared)
    → get_elem? s.threads i ≡ some (record { place = p; passes = passes })
    → s.mtx ≡ none
    → (passes == rounds) ≡ false
    → Within s.mtx s.counter i p
    → (s' : Shared) × (step rounds i s ≡ some s')
unfolding step thread_step lock_step
free_goes_on rounds i passes locking s e free left w = (
  record s {
    mtx = some i;
    threads = set s.threads i (record { place = reading; passes = passes });
  },
  step_at rounds i (record { place = locking; passes = passes }) s e
      ∙ rw (left, lock_step, free) refl,
)
free_goes_on rounds i passes reading s e free left w = cc
free_goes_on rounds i passes (writing v) s e free left w = cc (free, w.0)
free_goes_on rounds i passes unlocking s e free left w = cc

-- In a state that the threads can come to, a thread can go on, or the counter is complete.
goes_on :
    {n rounds : ℕ} (s : Shared)
    → IsSound n rounds s
    → ((i : ℕ) × (s' : Shared) × (step rounds i s ≡ some s')) ⊎ (s.counter ≡ n * rounds)
goes_on {n} {rounds} s ok = elim (Option-cases s.mtx) [
  | inr (i, h) ↦
      let (t, e, inside) = ok.held i h in
      let (s', goes) = inside_goes_on rounds i t.passes t.place s e inside in inl (i, s', goes)
  | inl free ↦ elim (unfinished rounds s.threads) [
    | inl (i, t, e, b) ↦
        let (s', goes) = free_goes_on rounds i t.passes t.place s e free b (ok.within i t e) in
        inl (i, s', goes)
    | inr all_made ↦ inr (rw (sym ok.many) (ok.counted ∙ all_made))
  ]
]

-- However `n` threads of `rounds` passes are interleaved, the counter is the number of increments
-- made, no more than 4 steps for each pass are taken, and in each state that is reached a thread
-- can go on or the counter is `n * rounds`: 100000 for the 10 threads of 10000 passes of main.
pub counter_complete :
    (n rounds : ℕ) (is : List ℕ) (s : Shared)
    → run rounds is (start n) ≡ some s
    → (s.counter ≡ made s)
      × (length is ≤ n * (4 * rounds))
      × (((i : ℕ) × (s' : Shared) × (step rounds i s ≡ some s')) ⊎ (s.counter ≡ n * rounds))
counter_complete n rounds is s e =
    let (ok, steps) = run_sound is (start n) s (start-IsSound n rounds) e in
    let most = weigh-bound progress (4 * rounds + 1) s.threads ok.bounded in
    (
      ok.counted,
      omega
          (arith, rw ok.many at most, steps, start-progress n, mul-add n (4 * rounds) 1, mul-one n),
      goes_on s ok,
    )
