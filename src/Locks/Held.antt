-- ===== src/Locks/Held.antt =====
-- mutex/demo1_mutex.cpp: who holds the lock, and what that thread knows of the counter.
use cpp_example.Common.{
  ℕ, zero, suc, ◌+◌, ◌*◌, ◌≤◌, ◌<◌, ◌==◌, ==_iff, ◌≡◌, ◌≢◌, ◌⊎◌, inl, inr, refl, sym, ◌∙◌, false,
  Bool-cases, Option, none, some, Option-cases, List, [], ◌∷◌, length, length-set, get_elem?, set,
  get_elem?-set_self, get_elem?-set_ne, arith,
}
use cpp_example.Ownership.Scope.{weigh, weigh-set}
use cpp_example.Locks.Counter.{
  Place, locking, reading, writing, unlocking, Thread, Shared, lock_step, thread_step, step,
}

abbrev pub passes_of : Thread → ℕ
passes_of t = t.passes

-- The increments that the threads have made.
abbrev pub made : Shared → ℕ
made s = weigh passes_of s.threads

-- A thread within the lock holds it, and what it has read is the counter.
abbrev pub Within : Option ℕ → ℕ → ℕ → Place → Type 0
Within m c i locking = Unit
Within m c i reading = m ≡ some i
Within m c i (writing v) = (m ≡ some i) × (v ≡ c)
Within m c i unlocking = m ≡ some i

abbrev pub IsInside : Place → Type 0
IsInside locking = ⊥
IsInside _ = Unit

-- A count that grows by one with each step of the thread.
abbrev progress_at : Place → ℕ → ℕ
progress_at locking p = 4 * p + 1
progress_at reading p = 4 * p + 2
progress_at (writing v) p = 4 * p + 3
progress_at unlocking p = 4 * p

abbrev pub progress : Thread → ℕ
progress t = progress_at t.place t.passes

-- A thread within the loop's body has a pass left.
abbrev pub IsBounded : ℕ → Thread → Type 0
IsBounded rounds t = progress t ≤ 4 * rounds + 1

pub record IsSound (n rounds : ℕ) (s : Shared) : Type 0 where
  pub within :
      (i : ℕ) (t : Thread) → get_elem? s.threads i ≡ some t → Within s.mtx s.counter i t.place
  pub held :
      (i : ℕ) → s.mtx ≡ some i → (t : Thread) × (get_elem? s.threads i ≡ some t) × IsInside t.place
  pub counted : s.counter ≡ made s
  pub bounded : (i : ℕ) (t : Thread) → get_elem? s.threads i ≡ some t → IsBounded rounds t
  pub many : length s.threads ≡ n

-- Who does not hold the lock is outside of it, whatever becomes of lock and counter.
outside :
    (m m' : Option ℕ) (c c' i : ℕ) (p : Place) → m ≢ some i → Within m c i p → Within m' c' i p
outside m m' c c' i locking h w = tt
outside m m' c c' i reading h w = absurd (h w)
outside m m' c c' i (writing v) h w = absurd (h w.0)
outside m m' c c' i unlocking h w = absurd (h w)

pub get_elem?-below :
    {A : Type 0} (xs : List A) (i : ℕ) {x : A} → get_elem? xs i ≡ some x → i < length xs
get_elem?-below [] i e = cc
get_elem?-below (x ∷ xs) zero e = omega arith
get_elem?-below (x ∷ xs) (suc i) e = omega (arith, get_elem?-below xs i e)

-- What is read from a list after a write: the new element, or another one.
pub set_cases :
    {A : Type 0} (xs : List A) (i j : ℕ) {x y z : A}
    → get_elem? xs i ≡ some x
    → get_elem? (set xs i y) j ≡ some z
    → ((i ≡ j) × (z ≡ y)) ⊎ ((i ≢ j) × (get_elem? xs j ≡ some z))
set_cases xs i j {x} {y} {z} at_i e = elim (Bool-cases (i == j)) [
  | inl b ↦
      let same = (==_iff i j).0 b in
      let new : get_elem? (set xs i y) i ≡ some z = rw (sym same) at e in
      let known = get_elem?-set_self xs i y (get_elem?-below xs i at_i) in inl (same, cc)
  | inr b ↦
      let other : i ≢ j = λ h. cc ((==_iff i j).1 h) in
      inr (other, sym (get_elem?-set_ne xs i j y other) ∙ e)
]

-- One thread goes on, and holds the lock if any thread does.
advance :
    {n rounds : ℕ} (s : Shared) (i : ℕ) (t t' : Thread) (m : Option ℕ) (c : ℕ)
    → IsSound n rounds s
    → get_elem? s.threads i ≡ some t
    → Within m c i t'.place
    → ((j : ℕ) (p : Place) → i ≢ j → Within s.mtx s.counter j p → Within m c j p)
    → ((j : ℕ) → m ≡ some j → (i ≡ j) × IsInside t'.place)
    → c + t.passes ≡ s.counter + t'.passes
    → IsBounded rounds t'
    → IsSound n rounds (record { counter = c; mtx = m; threads = set s.threads i t' })
advance s i t t' m c ok at_i new others holder sum bound = record {
  within = λ j u e. elim (set_cases s.threads i j at_i e) [
    | inl (same, is_new) ↦ rw (sym same, is_new) new
    | inr (other, old) ↦ others j u.place other (ok.within j u old)
  ];
  held = λ j e.
      let (same, inside) = holder j e in
      (
        t',
        rw (sym same) (get_elem?-set_self s.threads i t' (get_elem?-below s.threads i at_i)),
        inside,
      );
  counted = omega (arith, sum, ok.counted, weigh-set passes_of s.threads i t' at_i);
  bounded = λ j u e. elim (set_cases s.threads i j at_i e) [
    | inl (same, is_new) ↦ rw is_new bound
    | inr (other, old) ↦ ok.bounded j u old
  ];
  many = length-set s.threads i t' ∙ ok.many;
}

-- What a step of a thread makes of the state.
unfoldable pub Stepped : ℕ → ℕ → Shared → Shared → Type 0
Stepped n rounds s s' =
    IsSound n rounds s' × (weigh progress s'.threads ≡ suc (weigh progress s.threads))

below_end : (p r : ℕ) → (p == r) ≡ false → p ≤ r → p < r
below_end p r b h = ground arith

module _ {n rounds : ℕ} (i passes : ℕ) (s s' : Shared) (ok : IsSound n rounds s) where
  -- The thread, at a place of the loop.
  abbrev at : Place → Thread
  at p = record { place = p; passes = passes }

  stepped :
      (p : Place) (t' : Thread) (m : Option ℕ) (c : ℕ)
      → get_elem? s.threads i ≡ some (at p)
      → some (record { counter = c; mtx = m; threads = set s.threads i t' }) ≡ some s'
      → IsSound n rounds (record { counter = c; mtx = m; threads = set s.threads i t' })
      → progress t' ≡ suc (progress (at p))
      → Stepped n rounds s s'
  unfolding Stepped
  stepped p t' m c at_i e ok' more =
      let is : record { counter = c; mtx = m; threads = set s.threads i t' } ≡ s' = cc in
      rw (sym is) (ok', omega (arith, more, weigh-set progress s.threads i t' at_i))

  lock-Stepped :
      get_elem? s.threads i ≡ some (at locking)
      → lock_step rounds i passes s ≡ some s'
      → Stepped n rounds s s'
  unfolding lock_step
  lock-Stepped at_i e = elim (Bool-cases (passes == rounds)) [
    | inl b ↦ let stuck : none ≡ some s' = rw (b, lock_step) at e in cc
    | inr b ↦ elim (Option-cases s.mtx) [
      | inr (holder, h) ↦ let stuck : none ≡ some s' = rw (b, lock_step, h) at e in cc
      | inl free ↦
          stepped locking (at reading) (some i) s.counter at_i (rw (b, lock_step, free) at e)
            (advance s i (at locking) (at reading) (some i) s.counter ok at_i refl
              (λ j p other. outside s.mtx (some i) s.counter s.counter j p (λ h. cc))
              (λ j h. (cc, tt)) refl
              (omega
                (arith, below_end passes rounds b (omega (arith, ok.bounded i (at locking) at_i)))))
            (omega arith)
    ]
  ]

  step_cases :
      (p : Place)
      → get_elem? s.threads i ≡ some (at p)
      → thread_step rounds i (at p) s ≡ some s'
      → Stepped n rounds s s'
  unfolding thread_step
  step_cases locking at_i e = lock-Stepped at_i e
  step_cases reading at_i e =
      let mine = ok.within i (at reading) at_i in
      stepped reading (at (writing s.counter)) s.mtx s.counter at_i e
        (advance s i (at reading) (at (writing s.counter)) s.mtx s.counter ok at_i (mine, refl)
          (λ j p other w. w) (λ j h. (cc, tt)) refl (omega (arith, ok.bounded i (at reading) at_i)))
        (omega arith)
  step_cases (writing v) at_i e =
      let (mine, now) = ok.within i (at (writing v)) at_i in
      let t' : Thread = record { place = unlocking; passes = suc passes } in
      stepped (writing v) t' s.mtx (v + 1) at_i e
        (advance s i (at (writing v)) t' s.mtx (v + 1) ok at_i mine
          (λ j p other. outside s.mtx s.mtx s.counter (v + 1) j p (λ h. other cc)) (λ j h. (cc, tt))
          (omega (arith, now)) (omega (arith, ok.bounded i (at (writing v)) at_i)))
        (omega arith)
  step_cases unlocking at_i e =
      let mine = ok.within i (at unlocking) at_i in
      stepped unlocking (at locking) none s.counter at_i e
        (advance s i (at unlocking) (at locking) none s.counter ok at_i tt
          (λ j p other. outside s.mtx none s.counter s.counter j p (λ h. other cc)) (λ j h. cc) refl
          (omega (arith, ok.bounded i (at unlocking) at_i)))
        (omega arith)

pub step-Stepped :
    {n rounds : ℕ} (i : ℕ) (s s' : Shared)
    → IsSound n rounds s
    → step rounds i s ≡ some s'
    → Stepped n rounds s s'
unfolding step
step-Stepped {n} {rounds} i s s' ok e = elim (Option-cases (get_elem? s.threads i)) [
  | inl h ↦ let stuck : none ≡ some s' = rw (h, step) at e in cc
  | inr (t, h) ↦ step_cases i t.passes s s' ok t.place h (rw (h, step) at e)
]
