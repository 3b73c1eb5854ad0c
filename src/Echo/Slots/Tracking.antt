-- ===== src/Echo/Slots/Tracking.antt =====
-- network/echo: the descriptor set stays that of the array.
use cpp_example.Common.{
  Fresh, Distinct, contains, contains-Fresh, ℕ, zero, suc, ◌+◌, ◌-◌, ◌≡◌, ◌==◌, Bool, true, false,
  List, [], ◌∷◌, All, arith, if◌then◌else◌, Option, none, some, Bool-cases, inl, inr,
}
use cpp_example.Echo.Sys.{Got, FdSet, fd_clr, fd_put}
use cpp_example.Echo.Slots.{walk}
use cpp_example.Echo.Slots.Order.{fds_of}

-- `s` holds the descriptors of `base` and those of the array.
abbrev pub Tracks : FdSet → List (Option ℕ) → FdSet → Type 0
Tracks base slots s = (x : ℕ) → s x ≡ (if base x then true else contains x (fds_of slots))

abbrev OutsideOf : FdSet → List (Option ℕ) → Type 0
OutsideOf base slots = All (λ fd. base fd ≡ false) (fds_of slots)

All-put :
    (base : FdSet) (fd : ℕ) (l : List ℕ)
    → All (λ x. base x ≡ false) l
    → Fresh fd l
    → All (λ x. fd_put fd base x ≡ false) l
All-put base fd [] h f = tt
All-put base fd (x ∷ xs) h f = (ground arith, All-put base fd xs h.1 f.1)

put_base :
    (base : FdSet) (fd : ℕ) (rest : List (Option ℕ)) (s : FdSet)
    → Tracks base (some fd ∷ rest) s
    → Tracks (fd_put fd base) rest s
put_base base fd rest s t x = ground (arith, t x)

clr_base :
    (base : FdSet) (fd : ℕ) (rest : List (Option ℕ)) (s : FdSet)
    → Tracks base (some fd ∷ rest) s
    → base fd ≡ false
    → Fresh fd (fds_of rest)
    → Tracks base rest (fd_clr fd s)
clr_base base fd rest s t o f x = elim (Bool-cases (x == fd)) [
  | inl e ↦
      let same : x ≡ fd = ground arith in
      rw same (ground (arith, o, contains-Fresh fd (fds_of rest) f))
  | inr e ↦ ground (arith, t x)
]

module _ (ready : ℕ → ℕ → Bool) (reads : ℕ → Got) where
  -- If the set holds `base` and the array, the descriptors of the array being distinct and outside
  -- `base`, then it does after a pass that clears what it closes.
  pub walk-Tracks :
      (base : FdSet) (n i : ℕ) (slots : List (Option ℕ)) (nready : ℕ) (s : FdSet)
      → Distinct (fds_of slots)
      → All (λ fd. base fd ≡ false) (fds_of slots)
      → Tracks base slots s
      → Tracks base
          (walk ready reads fd_clr n i slots nready s).slots
          (walk ready reads fd_clr n i slots nready s).state
  unfolding walk
  walk-Tracks base zero i slots nready s d o t x = t x
  walk-Tracks base (suc n) i [] nready s d o t x = t x
  walk-Tracks base (suc n) i (none ∷ rest) nready s d o t x =
      walk-Tracks base n (i + 1) rest nready s d o t x
  walk-Tracks base (suc n) i (some fd ∷ rest) nready s d o t x = ground (
    arith,
    walk-Tracks (fd_put fd base) n (i + 1) rest nready s d.1 (All-put base fd (fds_of rest) o.1 d.0)
        (put_base base fd rest s t) x,
    walk-Tracks (fd_put fd base) n (i + 1) rest (nready - 1) s d.1
        (All-put base fd (fds_of rest) o.1 d.0) (put_base base fd rest s t) x,
    walk-Tracks base n (i + 1) rest (nready - 1) (fd_clr fd s) d.1 o.1
        (clr_base base fd rest s t o.0 d.0) x,
    clr_base base fd rest s t o.0 d.0 x,
    t x,
  )
