-- ===== src/Echo/Slots/Order.antt =====
-- network/echo: which clients a pass over the array serves, and what it leaves in the array.
use cpp_example.Common.{
  Distinct, ℕ, zero, suc, ◌+◌, ◌-◌, ◌≤◌, ◌≡◌, ◌≢◌, refl, ap, Bool, List, [], ◌∷◌, All, arith,
  if◌then◌else◌, Option, none, some, length,
}
use cpp_example.Echo.Sys.{Got, got, failed, Act, write, close}
use cpp_example.Echo.Slots.{serve, walk}

abbrev pub fds_of : List (Option ℕ) → List ℕ
fds_of [] = []
fds_of (none ∷ rest) = fds_of rest
fds_of (some fd ∷ rest) = fd ∷ fds_of rest

module _ (ready : ℕ → ℕ → Bool) (reads : ℕ → Got) where
  -- The ready clients among `n` entries from index `i`.
  abbrev pub ready_count : ℕ → ℕ → List (Option ℕ) → ℕ
  ready_count zero i slots = 0
  ready_count (suc n) i [] = 0
  ready_count (suc n) i (none ∷ rest) = ready_count n (i + 1) rest
  ready_count (suc n) i (some fd ∷ rest) =
      (if ready i fd then 1 else 0) + ready_count n (i + 1) rest

  -- What each ready client is to get, in the order of the array: its bytes back, or the close.
  abbrev pub answer : ℕ → Got → Act
  answer fd (got []) = close fd
  answer fd (got (b ∷ bs)) = write fd (b ∷ bs)
  answer fd (failed e) = close fd

  abbrev pub answers : ℕ → ℕ → List (Option ℕ) → List Act
  answers zero i slots = []
  answers (suc n) i [] = []
  answers (suc n) i (none ∷ rest) = answers n (i + 1) rest
  answers (suc n) i (some fd ∷ rest) =
      if ready i fd then answer fd (reads i) ∷ answers n (i + 1) rest else answers n (i + 1) rest

  answers-none :
      (n i : ℕ) (slots : List (Option ℕ)) → ready_count n i slots ≡ 0 → answers n i slots ≡ []
  answers-none zero i slots h = refl
  answers-none (suc n) i [] h = refl
  answers-none (suc n) i (none ∷ rest) h = answers-none n (i + 1) rest h
  answers-none (suc n) i (some fd ∷ rest) h = ground (arith, answers-none n (i + 1) rest)

  module _ {S : Type 0} (on_close : ℕ → S → S) where
    -- If the countdown starts at the number of ready clients or above, it ends the pass only
    -- when none is left: each ready client is served once, in order.
    pub walk-acts :
        (n i : ℕ) (slots : List (Option ℕ)) (nready : ℕ) (s : S)
        → ready_count n i slots ≤ nready
        → (walk ready reads on_close n i slots nready s).acts ≡ answers n i slots
    unfolding walk
    walk-acts zero i slots nready s h = refl
    walk-acts (suc n) i [] nready s h = refl
    walk-acts (suc n) i (none ∷ rest) nready s h = walk-acts n (i + 1) rest nready s h
    walk-acts (suc n) i (some fd ∷ rest) nready s h = ground (
      arith,
      walk-acts n (i + 1) rest nready s,
      walk-acts n (i + 1) rest (nready - 1) (serve ready reads on_close fd (reads i) s).1,
      answers-none n (i + 1) rest,
    )

    pub length-walk :
        (n i : ℕ) (slots : List (Option ℕ)) (nready : ℕ) (s : S)
        → length (walk ready reads on_close n i slots nready s).slots ≡ length slots
    unfolding walk
    length-walk zero i slots nready s = refl
    length-walk (suc n) i [] nready s = refl
    length-walk (suc n) i (none ∷ rest) nready s = ap suc (length-walk n (i + 1) rest nready s)
    length-walk (suc n) i (some fd ∷ rest) nready s = ground (
      arith,
      length-walk n (i + 1) rest nready s,
      length-walk n (i + 1) rest (nready - 1) (serve ready reads on_close fd (reads i) s).1,
    )

    -- A pass adds no descriptor.
    pub walk-All :
        (P : ℕ → Type 0) (n i : ℕ) (slots : List (Option ℕ)) (nready : ℕ) (s : S)
        → All P (fds_of slots)
        → All P (fds_of (walk ready reads on_close n i slots nready s).slots)
    unfolding walk
    walk-All P zero i slots nready s h = h
    walk-All P (suc n) i [] nready s h = tt
    walk-All P (suc n) i (none ∷ rest) nready s h = walk-All P n (i + 1) rest nready s h
    walk-All P (suc n) i (some fd ∷ rest) nready s h = ground (
      arith,
      walk-All P n (i + 1) rest nready s h.1,
      walk-All P n (i + 1) rest (nready - 1) (serve ready reads on_close fd (reads i) s).1 h.1,
    )

    pub walk-Distinct :
        (n i : ℕ) (slots : List (Option ℕ)) (nready : ℕ) (s : S)
        → Distinct (fds_of slots)
        → Distinct (fds_of (walk ready reads on_close n i slots nready s).slots)
    unfolding walk
    walk-Distinct zero i slots nready s d = d
    walk-Distinct (suc n) i [] nready s d = tt
    walk-Distinct (suc n) i (none ∷ rest) nready s d = walk-Distinct n (i + 1) rest nready s d
    walk-Distinct (suc n) i (some fd ∷ rest) nready s d = ground (
      arith,
      walk-Distinct n (i + 1) rest nready s d.1,
      walk-Distinct n (i + 1) rest (nready - 1) (serve ready reads on_close fd (reads i) s).1 d.1,
      walk-All (λ x. x ≢ fd) n (i + 1) rest nready s d.0,
      walk-All (λ x. x ≢ fd) n (i + 1) rest (nready - 1)
          (serve ready reads on_close fd (reads i) s).1 d.0,
    )
