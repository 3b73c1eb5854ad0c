-- ===== src/Common/Related.antt =====
-- Two lists of one length whose elements at each place are in a relation.
use mathlib.Core.Path.{◌≡◌, refl}
use mathlib.Core.List.{List, [], ◌∷◌, ◌++◌}
use mathlib.Core.Option.{none, some}
use Prim.Native.Nat.{ℕ, zero, suc}
use cpp_example.Common.Lists.{get_elem?, set}

module _ {A B : Type 0} where
  abbrev pub Related : (A → B → Type 0) → List A → List B → Type 0
  Related R [] [] = Unit
  Related R (x ∷ xs) (y ∷ ys) = R x y × Related R xs ys
  Related R _ _ = ⊥

  pub Related-get_elem? :
      (R : A → B → Type 0) (xs : List A) (ys : List B) (i : ℕ) {x : A}
      → Related R xs ys
      → get_elem? xs i ≡ some x
      → (y : B) × (get_elem? ys i ≡ some y) × R x y
  Related-get_elem? R [] ys i r e = cc
  Related-get_elem? R (x ∷ xs) [] i r e = elim r [ ]
  Related-get_elem? R (z ∷ xs) (y ∷ ys) zero {x} r e = let i : x ≡ z = cc in (y, refl, rw i r.0)
  Related-get_elem? R (x ∷ xs) (y ∷ ys) (suc i) r e = Related-get_elem? R xs ys i r.1 e

  pub Related-none :
      (R : A → B → Type 0) (xs : List A) (ys : List B) (i : ℕ)
      → Related R xs ys
      → get_elem? xs i ≡ none
      → get_elem? ys i ≡ none
  Related-none R [] (y ∷ ys) i r e = elim r [ ]
  Related-none R (x ∷ xs) [] i r e = elim r [ ]
  Related-none R [] [] i r e = refl
  Related-none R (x ∷ xs) (y ∷ ys) zero r e = cc
  Related-none R (x ∷ xs) (y ∷ ys) (suc i) r e = Related-none R xs ys i r.1 e

  pub Related-set :
      (R : A → B → Type 0) (xs : List A) (ys : List B) (i : ℕ) {x : A} {y : B}
      → Related R xs ys
      → R x y
      → Related R (set xs i x) (set ys i y)
  Related-set R [] (y ∷ ys) i r s = elim r [ ]
  Related-set R (x ∷ xs) [] i r s = elim r [ ]
  Related-set R [] [] i r s = tt
  Related-set R (x ∷ xs) (y ∷ ys) zero r s = (s, r.1)
  Related-set R (x ∷ xs) (y ∷ ys) (suc i) r s = (r.0, Related-set R xs ys i r.1 s)

  pub Related-append :
      (R : A → B → Type 0) (xs : List A) (ys : List B) {x : A} {y : B}
      → Related R xs ys
      → R x y
      → Related R (xs ++ x ∷ []) (ys ++ y ∷ [])
  Related-append R [] (y ∷ ys) r s = elim r [ ]
  Related-append R (x ∷ xs) [] r s = elim r [ ]
  Related-append R [] [] r s = (s, tt)
  Related-append R (x ∷ xs) (y ∷ ys) r s = (r.0, Related-append R xs ys r.1 s)

  pub Related-weaken :
      (R S : A → B → Type 0) (xs : List A) (ys : List B)
      → ((x : A) (y : B) → R x y → S x y)
      → Related R xs ys
      → Related S xs ys
  Related-weaken R S [] (y ∷ ys) f r = elim r [ ]
  Related-weaken R S (x ∷ xs) [] f r = elim r [ ]
  Related-weaken R S [] [] f r = tt
  Related-weaken R S (x ∷ xs) (y ∷ ys) f r = (f x y r.0, Related-weaken R S xs ys f r.1)
