-- ===== src/Common/Sets.antt =====
-- Lists of numbers as sets of descriptors or addresses.
use Prim.Native.Nat.{ℕ, ◌+◌}
use mathlib.Core.Path.{◌≡◌, refl}
use mathlib.Core.Logic.{◌≢◌}
use mathlib.Core.Bool.{Bool, true, false}
use mathlib.Core.List.{List, [], ◌∷◌}
use native.Mathlib.Omega.{arith}
use cpp_example.Common.Tests.{◌==◌, if◌then◌else◌}
use cpp_example.Common.Lists.{All, length}

abbrev pub contains : ℕ → List ℕ → Bool
contains x [] = false
contains x (y ∷ ys) = if x == y then true else contains x ys

abbrev pub Fresh : ℕ → List ℕ → Type 0
Fresh fd = All (λ x. x ≢ fd)

abbrev pub Distinct : List ℕ → Type 0
Distinct [] = Unit {0}
Distinct (x ∷ xs) = Fresh x xs × Distinct xs

-- Without the first occurrence.
abbrev pub erase : ℕ → List ℕ → List ℕ
erase fd [] = []
erase fd (x ∷ xs) = if x == fd then xs else x ∷ erase fd xs

pub contains-Fresh : (x : ℕ) (xs : List ℕ) → Fresh x xs → contains x xs ≡ false
contains-Fresh x [] h = refl
contains-Fresh x (y ∷ ys) h = ground (arith, contains-Fresh x ys h.1)

pub Fresh-contains : (x : ℕ) (xs : List ℕ) → contains x xs ≡ false → Fresh x xs
Fresh-contains x [] h = tt
Fresh-contains x (y ∷ ys) h = (ground arith, Fresh-contains x ys (ground arith))

pub Fresh-erase : (x y : ℕ) (xs : List ℕ) → Fresh x xs → Fresh x (erase y xs)
Fresh-erase x y [] h = tt
Fresh-erase x y (z ∷ zs) h = ground (arith, Fresh-erase x y zs h.1)

pub Distinct-erase : (x : ℕ) (xs : List ℕ) → Distinct xs → Distinct (erase x xs)
Distinct-erase x [] h = tt
Distinct-erase x (y ∷ ys) h = ground (arith, Distinct-erase x ys h.1, Fresh-erase y x ys h.0)

pub contains-erase :
    (x y : ℕ) (xs : List ℕ)
    → Distinct xs
    → contains y (erase x xs) ≡ (if y == x then false else contains y xs)
contains-erase x y [] h = ground arith
contains-erase x y (z ∷ zs) h = ground (arith, contains-erase x y zs h.1, contains-Fresh z zs h.0)

pub length-erase :
    (x : ℕ) (xs : List ℕ) → contains x xs ≡ true → length (erase x xs) + 1 ≡ length xs
length-erase x [] h = cc
length-erase x (y ∷ ys) h = ground (arith, length-erase x ys)
