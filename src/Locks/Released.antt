-- ===== src/Locks/Released.antt =====
-- mutex/demo4_lock_guard.cpp: every interleaving of the threads comes to its end.
use cpp_example.Common.{
  ℕ, zero, suc, ◌+◌, ◌*◌, ◌≤◌, ◌≡◌, ◌≢◌, ◌⊎◌, inl, inr, refl, sym, ap, ◌∙◌, none, some,
  Option-cases, List, [], ◌∷◌, All, length, length-replicate, get_elem?, set, replicate, arith,
}
use cpp_example.Ownership.Scope.{weigh}
use cpp_example.Locks.Guard.{
  Line, print_even, Place, locking, inside, handling, finished, Shared, leave_block, place_step,
  step, run, start,
}
use cpp_example.Locks.Guarded.{
  lines_from, occurrences, due, rank, At, IsSound, Stepped, step-Stepped,
}

run-IsSound :
    {n : ℕ} (is : List ℕ) (s s' : Shared)
    → IsSound n s
    → run is s ≡ some s'
    → IsSound n s' × (weigh rank s.places + length is ≤ weigh rank s'.places)
unfolding run Stepped
run-IsSound [] s s' ok e = let same : s ≡ s' = cc in rw (sym same) (ok, omega arith)
run-IsSound {n} (i ∷ is) s s' ok e = elim (Option-cases (step i s)) [
  | inl h ↦ let stuck : none ≡ some s' = rw (h, run) at e in cc
  | inr (s1, h) ↦
      let (ok', more) = step-Stepped {n = n} i s s1 ok h in
      let (ok'', rest) = run-IsSound is s1 s' ok' (rw (h, run) at e) in
      (ok'', omega (arith, more, rest))
]

replicate_locking : (n i : ℕ) (p : Place) → get_elem? (replicate n locking) i ≡ some p → p ≡ locking
replicate_locking zero i p e = cc
replicate_locking (suc n) zero p e = cc
replicate_locking (suc n) (suc i) p e = replicate_locking n i p e

nothing_due : (l : Line) (k n : ℕ) → due l k (replicate n locking) ≡ 0
nothing_due l k zero = refl
nothing_due l k (suc n) = omega (arith, nothing_due l (suc k) n)

start-IsSound : (n : ℕ) → IsSound n (start n)
unfolding start
start-IsSound n = record {
  at = λ i p e. rw (replicate_locking n i p e) tt;
  held = λ i e. cc;
  told = λ l. sym (nothing_due l 0 n);
  many = length-replicate n locking;
}

all_due :
    (l : Line) (k : ℕ) (ps : List Place)
    → All (λ p. p ≡ finished) ps
    → due l k ps ≡ occurrences l (lines_from k (length ps))
unfolding lines_from
all_due l k [] a = refl
all_due l k (p ∷ ps) a = rw (a.0) (omega (arith, all_due l (suc k) ps a.1))

-- A thread that is not at its end, or all are.
unfinished :
    (ps : List Place)
    → ((i : ℕ) × (p : Place) × (get_elem? ps i ≡ some p) × (p ≢ finished))
      ⊎ All (λ p. p ≡ finished) ps
unfinished [] = inr tt
unfinished (finished ∷ ps) = elim (unfinished ps) [
  | inl (i, p, e, more) ↦ inl (suc i, p, e, more)
  | inr rest ↦ inr (refl, rest)
]
unfinished (locking ∷ ps) = inl (0, locking, refl, λ h. cc)
unfinished (inside ∷ ps) = inl (0, inside, refl, λ h. cc)
unfinished (handling ∷ ps) = inl (0, handling, refl, λ h. cc)

step_at :
    (i : ℕ) (p : Place) (s : Shared) → get_elem? s.places i ≡ some p → step i s ≡ place_step i p s
unfolding step
step_at i p s e = rw (e, step) refl

free_goes_on :
    (i : ℕ) (p : Place) (s : Shared)
    → s.mtx ≡ none
    → get_elem? s.places i ≡ some p
    → At s.mtx i p
    → p ≢ finished
    → (s' : Shared) × (step i s ≡ some s')
unfolding place_step
free_goes_on i locking s free e a more = (
  record s { mtx = some i; places = set s.places i inside },
  step_at i locking s e ∙ rw (free, place_step) refl,
)
free_goes_on i inside s free e a more = cc
free_goes_on i handling s free e a more = (_, step_at i handling s e)
free_goes_on i finished s free e a more = absurd (more refl)

goes_on :
    {n : ℕ} (s : Shared)
    → IsSound n s
    → ((i : ℕ) × (s' : Shared) × (step i s ≡ some s'))
      ⊎ ((s.mtx ≡ none) × ((l : Line) → occurrences l s.lines ≡ occurrences l (lines_from 0 n)))
unfolding place_step
goes_on s ok = elim (Option-cases s.mtx) [
  | inr (i, h) ↦ inl (i, leave_block i (print_even (i + 1)) s, step_at i inside s (ok.held i h))
  | inl free ↦ elim (unfinished s.places) [
    | inl (i, p, e, more) ↦
        let (s', goes) = free_goes_on i p s free e (ok.at i p e) more in inl (i, s', goes)
    | inr all_done ↦ inr (
      free,
      λ l.
          ok.told l
          ∙ all_due l 0 s.places all_done
          ∙ ap (λ k. occurrences l (lines_from 0 k)) ok.many,
    )
  ]
]

rank_bound : (ps : List Place) → weigh rank ps ≤ length ps * 3
rank_bound [] = omega arith
rank_bound (locking ∷ ps) = omega (arith, rank_bound ps)
rank_bound (inside ∷ ps) = omega (arith, rank_bound ps)
rank_bound (handling ∷ ps) = omega (arith, rank_bound ps)
rank_bound (finished ∷ ps) = omega (arith, rank_bound ps)

-- However the `n` threads are interleaved, also where print_even throws: no more than 3 steps for
-- each are taken, and in each state that is reached a thread can go on, or the lock is free and each
-- line was printed as often as if the threads had run one after the other.
pub guard_released :
    (n : ℕ) (is : List ℕ) (s : Shared)
    → run is (start n) ≡ some s
    → (length is ≤ n * 3)
      × (((i : ℕ) × (s' : Shared) × (step i s ≡ some s'))
          ⊎ ((s.mtx ≡ none)
              × ((l : Line) → occurrences l s.lines ≡ occurrences l (lines_from 0 n))))
guard_released n is s e =
    let (ok, steps) = run-IsSound is (start n) s (start-IsSound n) e in
    let most = rank_bound s.places in (omega (arith, steps, rw ok.many at most), goes_on s ok)
