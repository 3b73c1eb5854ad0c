-- ===== src/Locks/Guarded.antt =====
-- mutex/demo4_lock_guard.cpp: the lock is given back also by the threads that throw, and each thread
-- comes to its line.
use cpp_example.Common.{
  ℕ, zero, suc, ◌+◌, ◌≤◌, ◌==◌, ◌≡◌, ◌≢◌, inl, inr, refl, sym, ap, ◌∙◌, Option, none, some,
  Option-cases, List, [], ◌∷◌, ◌++◌, length, length-set, get_elem?, set, get_elem?-set_self,
  get_elem?-set_ne, if◌then◌else◌, arith,
}
use cpp_example.Ownership.Scope.{weigh, weigh-set}
use cpp_example.Locks.Held.{set_cases, get_elem?-below}
use cpp_example.Locks.Guard.{
  Line, is_even, exception_caught, Printed, printed, thrown, print_even, Place, locking, inside,
  handling, finished, Shared, leave_block, place_step, step,
}

-- The line that a thread prints in the end.
unfoldable pub line_of : ℕ → Line
line_of i = elim (print_even (i + 1)) [ printed l ↦ l | thrown ↦ exception_caught ]

-- The lines of threads `k` to `k + n`, as if one ran after the other.
unfoldable pub lines_from : ℕ → ℕ → List Line
lines_from k zero = []
lines_from k (suc n) = line_of k ∷ lines_from (suc k) n

abbrev pub same_line : Line → Line → ℕ
same_line (is_even x) (is_even y) = if x == y then 1 else 0
same_line exception_caught exception_caught = 1
same_line _ _ = 0

abbrev pub occurrences : Line → List Line → ℕ
occurrences l [] = 0
occurrences l (x ∷ xs) = same_line l x + occurrences l xs

occurrences-append :
    (l : Line) (xs : List Line) (y : Line)
    → occurrences l (xs ++ y ∷ []) ≡ occurrences l xs + same_line l y
occurrences-append l [] y = omega arith
occurrences-append l (x ∷ xs) y = omega (arith, occurrences-append l xs y)

-- What thread `i` has printed of a line.
abbrev pub owed : Line → ℕ → Place → ℕ
owed l i finished = same_line l (line_of i)
owed l i _ = 0

abbrev pub due : Line → ℕ → List Place → ℕ
due l k [] = 0
due l k (p ∷ ps) = owed l k p + due l (suc k) ps

due-set :
    (l : Line) (k : ℕ) (ps : List Place) (i : ℕ) (q : Place) {p : Place}
    → get_elem? ps i ≡ some p
    → due l k (set ps i q) + owed l (k + i) p ≡ due l k ps + owed l (k + i) q
due-set l k [] i q e = cc
due-set l k (x ∷ ps) zero q {p} e =
    let same : p ≡ x = cc in let here : k + 0 ≡ k = omega arith in rw (same, here) (omega arith)
due-set l k (x ∷ ps) (suc i) q e =
    let shift : k + suc i ≡ suc k + i = omega arith in
    rw shift (omega (arith, due-set l (suc k) ps i q e))

abbrev pub rank : Place → ℕ
rank locking = 0
rank inside = 1
rank handling = 2
rank finished = 3

abbrev pub At : Option ℕ → ℕ → Place → Type 0
At m i locking = Unit
At m i inside = m ≡ some i
At m i handling = print_even (i + 1) ≡ thrown
At m i finished = Unit

pub record IsSound (n : ℕ) (s : Shared) : Type 0 where
  pub at : (i : ℕ) (p : Place) → get_elem? s.places i ≡ some p → At s.mtx i p
  pub held : (i : ℕ) → s.mtx ≡ some i → get_elem? s.places i ≡ some inside
  pub told : (l : Line) → occurrences l s.lines ≡ due l 0 s.places
  pub many : length s.places ≡ n

-- A thread that does not hold the lock does not notice what becomes of it.
apart : (m m' : Option ℕ) (i : ℕ) (p : Place) → m ≢ some i → At m i p → At m' i p
apart m m' i locking h a = tt
apart m m' i inside h a = absurd (h a)
apart m m' i handling h a = a
apart m m' i finished h a = tt

-- One thread goes on.
advance :
    {n : ℕ} (s : Shared) (i : ℕ) (p q : Place) (m : Option ℕ) (ls : List Line)
    → IsSound n s
    → get_elem? s.places i ≡ some p
    → At m i q
    → ((j : ℕ) (u : Place) → i ≢ j → At s.mtx j u → At m j u)
    → ((j : ℕ) → m ≡ some j → get_elem? (set s.places i q) j ≡ some inside)
    → ((l : Line) → occurrences l ls + owed l i p ≡ occurrences l s.lines + owed l i q)
    → IsSound n (record { mtx = m; places = set s.places i q; lines = ls })
advance s i p q m ls ok at_i new others holder more = record {
  at = λ j u e. elim (set_cases s.places i j at_i e) [
    | inl (same, is_new) ↦ rw (sym same, is_new) new
    | inr (other, old) ↦ others j u other (ok.at j u old)
  ];
  held = holder;
  told = λ l.
      let first : 0 + i ≡ i = omega arith in
      let change = due-set l 0 s.places i q at_i in
      omega (arith, more l, ok.told l, rw first at change);
  many = length-set s.places i q ∙ ok.many;
}

unfoldable pub Stepped : ℕ → Shared → Shared → Type 0
Stepped n s s' = IsSound n s' × (suc (weigh rank s.places) ≤ weigh rank s'.places)

stepped :
    {n : ℕ} (s s' : Shared) (i : ℕ) (p q : Place) (m : Option ℕ) (ls : List Line)
    → get_elem? s.places i ≡ some p
    → some (record { mtx = m; places = set s.places i q; lines = ls }) ≡ some s'
    → suc (rank p) ≤ rank q
    → IsSound n (record { mtx = m; places = set s.places i q; lines = ls })
    → Stepped n s s'
unfolding Stepped
stepped s s' i p q m ls at_i e more ok =
    let is : record { mtx = m; places = set s.places i q; lines = ls } ≡ s' = cc in
    rw (sym is) (ok, omega (arith, more, weigh-set rank s.places i q at_i))

module _ {n : ℕ} (i : ℕ) (s s' : Shared) (ok : IsSound n s) where
  left :
      (r : Printed)
      → print_even (i + 1) ≡ r
      → get_elem? s.places i ≡ some inside
      → some (leave_block i r s) ≡ some s'
      → Stepped n s s'
  unfolding leave_block line_of
  left (printed l) r at_i e =
      let mine = ok.at i inside at_i in
      let own : line_of i ≡ l = rw (line_of, r) refl in
      stepped s s' i inside finished none (s.lines ++ l ∷ []) at_i e (omega arith) (
        advance s i inside finished none (s.lines ++ l ∷ []) ok at_i tt
          (λ j p other. apart s.mtx none j p (λ h. other cc)) (λ j h. cc)
          (λ k. omega (arith, occurrences-append k s.lines l, ap (same_line k) own)))
  left thrown r at_i e =
      let mine = ok.at i inside at_i in
      stepped s s' i inside handling none s.lines at_i e (omega arith) (
        advance s i inside handling none s.lines ok at_i r
          (λ j p other. apart s.mtx none j p (λ h. other cc)) (λ j h. cc) (λ k. refl))

  place-Stepped :
      (p : Place) → get_elem? s.places i ≡ some p → place_step i p s ≡ some s' → Stepped n s s'
  unfolding place_step line_of
  place-Stepped locking at_i e = elim (Option-cases s.mtx) [
    | inr (holder, h) ↦ let stuck : none ≡ some s' = rw (h, place_step) at e in cc
    | inl free ↦
        stepped s s' i locking inside (some i) s.lines at_i (rw (free, place_step) at e)
          (omega arith)
          (advance s i locking inside (some i) s.lines ok at_i refl
            (λ j p other. apart s.mtx (some i) j p (λ h. cc))
            (λ j h.
              let same : i ≡ j = cc in
              rw (sym same)
                (get_elem?-set_self s.places i inside (get_elem?-below s.places i at_i)))
            (λ k. refl))
  ]
  place-Stepped inside at_i e = left (print_even (i + 1)) refl at_i e
  place-Stepped handling at_i e =
      let own : line_of i ≡ exception_caught = rw (line_of, ok.at i handling at_i) refl in
      stepped s s' i handling finished s.mtx (s.lines ++ exception_caught ∷ []) at_i e (omega arith)
        (advance s i handling finished s.mtx (s.lines ++ exception_caught ∷ []) ok at_i tt
          (λ j p other a. a)
          (λ j h.
            let in_lock = ok.held j h in
            get_elem?-set_ne s.places i j finished (λ same. cc) ∙ in_lock)
          (λ k. omega (arith, occurrences-append k s.lines exception_caught, ap (same_line k) own)))
  place-Stepped finished at_i e = cc

pub step-Stepped :
    {n : ℕ} (i : ℕ) (s s' : Shared) → IsSound n s → step i s ≡ some s' → Stepped n s s'
unfolding step
step-Stepped i s s' ok e = elim (Option-cases (get_elem? s.places i)) [
  | inl h ↦ let stuck : none ≡ some s' = rw (h, step) at e in cc
  | inr (p, h) ↦ place-Stepped i s s' ok p h (rw (h, step) at e)
]
