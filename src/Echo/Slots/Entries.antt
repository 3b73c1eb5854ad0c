-- ===== src/Echo/Slots/Entries.antt =====
-- network/echo: taking an entry of the array, and the part of the array in use.
use cpp_example.Common.{
  Fresh, Distinct, contains, ℕ, zero, suc, ◌+◌, ◌-◌, ◌≤◌, ◌<◌, ◌≡◌, ◌≢◌, refl, sym, ◌==◌, Bool,
  true, List, [], ◌∷◌, All, arith, if◌then◌else◌, Option, none, some, length, set, drop,
}
use cpp_example.Echo.Sys.{Got}
use cpp_example.Echo.Slots.{serve, walk, find_slot}
use cpp_example.Echo.Slots.Order.{fds_of, ready_count, answers}

pub find_slot-le : (slots : List (Option ℕ)) → find_slot slots ≤ length slots
unfolding find_slot
find_slot-le [] = omega arith
find_slot-le (none ∷ rest) = omega arith
find_slot-le (some fd ∷ rest) = omega (arith, find_slot-le rest)

pub contains-set_slot :
    (slots : List (Option ℕ)) (fd x : ℕ)
    → find_slot slots < length slots
    → contains x (fds_of (set slots (find_slot slots) (some fd)))
      ≡ (if x == fd then true else contains x (fds_of slots))
unfolding find_slot
contains-set_slot [] fd x h = absurd (omega arith)
contains-set_slot (none ∷ rest) fd x h = refl
contains-set_slot (some y ∷ rest) fd x h = ground (arith, contains-set_slot rest fd x (omega arith))

pub All-set_slot :
    (P : ℕ → Type 0) (slots : List (Option ℕ)) (fd : ℕ)
    → P fd
    → All P (fds_of slots)
    → All P (fds_of (set slots (find_slot slots) (some fd)))
unfolding find_slot
All-set_slot P [] fd p h = tt
All-set_slot P (none ∷ rest) fd p h = (p, h)
All-set_slot P (some y ∷ rest) fd p h = (h.0, All-set_slot P rest fd p h.1)

ne_sym : {a b : ℕ} → a ≢ b → b ≢ a
ne_sym h e = h (sym e)

pub Distinct-set_slot :
    (slots : List (Option ℕ)) (fd : ℕ)
    → Fresh fd (fds_of slots)
    → Distinct (fds_of slots)
    → Distinct (fds_of (set slots (find_slot slots) (some fd)))
unfolding find_slot
Distinct-set_slot [] fd f d = tt
Distinct-set_slot (none ∷ rest) fd f d = (f, d)
Distinct-set_slot (some y ∷ rest) fd f d =
    (All-set_slot (λ x. x ≢ y) rest fd (ne_sym f.0) d.0, Distinct-set_slot rest fd f.1 d.1)

-- No client stands from index `n` on.
abbrev pub Unused : ℕ → List (Option ℕ) → Type 0
Unused n slots = fds_of (drop n slots) ≡ []

pub Unused-mono : (m n : ℕ) (slots : List (Option ℕ)) → m ≤ n → Unused m slots → Unused n slots
Unused-mono zero zero slots h u = u
Unused-mono zero (suc n) [] h u = refl
Unused-mono zero (suc n) (none ∷ rest) h u = Unused-mono zero n rest (omega arith) u
Unused-mono zero (suc n) (some fd ∷ rest) h u = cc
Unused-mono (suc m) zero slots h u = absurd (omega arith)
Unused-mono (suc m) (suc n) [] h u = refl
Unused-mono (suc m) (suc n) (s ∷ rest) h u = Unused-mono m n rest (omega arith) u

pub Unused-set :
    (n i : ℕ) (slots : List (Option ℕ)) (v : Option ℕ)
    → i < n
    → Unused n slots
    → Unused n (set slots i v)
Unused-set zero i slots v h u = absurd (omega arith)
Unused-set (suc n) i [] v h u = refl
Unused-set (suc n) zero (s ∷ rest) v h u = u
Unused-set (suc n) (suc i) (s ∷ rest) v h u = Unused-set n i rest v (omega arith) u

module _ (ready : ℕ → ℕ → Bool) (reads : ℕ → Got) where
  pub ready_count-le :
      (n k i : ℕ) (slots : List (Option ℕ))
      → n ≤ k
      → ready_count ready reads n i slots ≤ ready_count ready reads k i slots
  ready_count-le zero k i slots h = omega arith
  ready_count-le (suc n) zero i slots h = absurd (omega arith)
  ready_count-le (suc n) (suc k) i [] h = omega arith
  ready_count-le (suc n) (suc k) i (none ∷ rest) h = ready_count-le n k (i + 1) rest (omega arith)
  ready_count-le (suc n) (suc k) i (some fd ∷ rest) h =
      omega (arith, ready_count-le n k (i + 1) rest (omega arith))

  -- Answering stops at the end of the part in use.
  pub answers-Unused :
      (n k i : ℕ) (slots : List (Option ℕ))
      → n ≤ k
      → Unused n slots
      → answers ready reads k i slots ≡ answers ready reads n i slots
  answers-Unused zero zero i slots h u = refl
  answers-Unused zero (suc k) i [] h u = refl
  answers-Unused zero (suc k) i (none ∷ rest) h u =
      answers-Unused zero k (i + 1) rest (omega arith) u
  answers-Unused zero (suc k) i (some fd ∷ rest) h u = absurd (cons_ne_nil u)
    where
      cons_ne_nil : {x : ℕ} {xs : List ℕ} → x ∷ xs ≡ [] → ⊥
      cons_ne_nil e = cc
  answers-Unused (suc n) zero i slots h u = absurd (omega arith)
  answers-Unused (suc n) (suc k) i [] h u = refl
  answers-Unused (suc n) (suc k) i (none ∷ rest) h u =
      answers-Unused n k (i + 1) rest (omega arith) u
  answers-Unused (suc n) (suc k) i (some fd ∷ rest) h u =
      ground (arith, answers-Unused n k (i + 1) rest (omega arith) u)

  module _ {S : Type 0} (on_close : ℕ → S → S) where
    -- A pass over `n` entries leaves the others alone.
    pub drop-walk :
        (n i : ℕ) (slots : List (Option ℕ)) (nready : ℕ) (s : S)
        → drop n (walk ready reads on_close n i slots nready s).slots ≡ drop n slots
    unfolding walk
    drop-walk zero i slots nready s = refl
    drop-walk (suc n) i [] nready s = refl
    drop-walk (suc n) i (none ∷ rest) nready s = drop-walk n (i + 1) rest nready s
    drop-walk (suc n) i (some fd ∷ rest) nready s = ground (
      arith,
      drop-walk n (i + 1) rest nready s,
      drop-walk n (i + 1) rest (nready - 1) (serve ready reads on_close fd (reads i) s).1,
    )
