-- ===== src/Ownership/Lifetime/Moving.antt =====
-- rvalue_reference/demo1_move_constructor.cpp: any constructions, moves and copies in a scope.
use cpp_example.Common.{
  ℕ, zero, suc, ◌≡◌, ◌⊎◌, refl, ap, ◌∙◌, Bool, true, false, none, some, Option-cases, inl, inr,
  List, [], ◌∷◌, ◌++◌, length, get_elem?, set, All, map, arith,
}
use cpp_example.Common.Outcome.{done, overrun}
use cpp_example.Ownership.Blocks.{live}
use cpp_example.Ownership.Scope.{weigh-append, weigh-set, holds, destroy_all-frees}
use cpp_example.Ownership.Holder.{
  World, Holder, Use, makes, takes, copies, made_from, moving, move_construct, copy_construct, Line,
  prints, constructor_a, copy_constructor_a, move_constructor_a, read_int, step, steps, scope,
}
use cpp_example.Ownership.Lifetime.{
  itself, Accounts, AnyHolder, moving-Frees, built, construct_lem, move_construct_lem,
  copy_construct_lem, Accounts-built, owner_live,
}

abbrev pub is_held : Holder → Bool
is_held none = false
is_held (some a) = true

-- No move and no copy is from an object that was moved from before; `held_now` says which objects
-- still hold their pointers.
unfoldable pub moves_once : List Use → List Bool → Bool
moves_once [] held_now = true
moves_once (makes v ∷ us) held_now = moves_once us (held_now ++ true ∷ [])
moves_once (takes i ∷ us) held_now = elim (get_elem? held_now i) [
  | none ↦ moves_once us held_now
  | some false ↦ false
  | some true ↦ moves_once us (set held_now i false ++ true ∷ [])
]
moves_once (copies i ∷ us) held_now = elim (get_elem? held_now i) [
  | none ↦ moves_once us held_now
  | some false ↦ false
  | some true ↦ moves_once us (held_now ++ true ∷ [])
]

module _ {A B : Type 0} (f : A → B) where
  get_elem?-map_missing :
      (xs : List A) (i : ℕ) → get_elem? xs i ≡ none → get_elem? (map f xs) i ≡ none
  get_elem?-map_missing [] i e = refl
  get_elem?-map_missing (x ∷ xs) zero e = cc
  get_elem?-map_missing (x ∷ xs) (suc i) e = get_elem?-map_missing xs i e

  get_elem?-map :
      (xs : List A) (i : ℕ) {x : A} → get_elem? xs i ≡ some x → get_elem? (map f xs) i ≡ some (f x)
  get_elem?-map [] i e = cc
  get_elem?-map (y ∷ ys) zero {x} e = let i : x ≡ y = cc in rw i refl
  get_elem?-map (y ∷ ys) (suc i) e = get_elem?-map ys i e

  map_last : (ys : List A) (y : A) → map f (ys ++ y ∷ []) ≡ map f ys ++ f y ∷ []
  map_last [] y = refl
  map_last (v ∷ vs) y = ap (◌∷◌ (f v)) (map_last vs y)

  map-set : (xs : List A) (i : ℕ) (x : A) → map f (set xs i x) ≡ set (map f xs) i (f x)
  map-set [] i x = refl
  map-set (z ∷ zs) zero x = refl
  map-set (z ∷ zs) (suc i) x = ap (◌∷◌ (f z)) (map-set zs i x)

-- A move gives the pointer to the new object.
Accounts-moved :
    (w0 : World) (xs : List Holder) (w : World) (i a : ℕ) (l : Line)
    → get_elem? xs i ≡ some (some a)
    → Accounts w0 (xs, w)
    → Accounts w0 (set xs i none ++ some a ∷ [], prints l w)
Accounts-moved w0 xs w i a l e h b = omega (
  arith,
  h b,
  weigh-set (λ x. holds b (itself x)) xs i none e,
  weigh-append (λ x. holds b (itself x)) (set xs i none) (some a),
)

set_same : (xs : List Holder) (i : ℕ) (x : Holder) → get_elem? xs i ≡ some x → set xs i x ≡ xs
set_same [] i x e = refl
set_same (y ∷ ys) zero x e = let same : y ≡ x = cc in rw same refl
set_same (y ∷ ys) (suc i) x e = ap (◌∷◌ y) (set_same ys i x e)

All_any : (xs : List Holder) → All AnyHolder xs
All_any [] = tt
All_any (x ∷ xs) = (tt, All_any xs)

-- Either every use has run, or a move was from an object without a pointer.
abbrev Ran : World → List Use → List Holder → World → List Bool → Type 0
Ran w0 us xs w held_now =
    ((moves_once us held_now ≡ true)
      × (ys : List Holder) × (v : World) × (steps moving us (xs, w) ≡ done (ys, v))
      × Accounts w0 (ys, v))
    ⊎ ((moves_once us held_now ≡ false) × (steps moving us (xs, w) ≡ overrun))

Ran-step :
    (w0 : World) (us : List Use) (ys : List Holder) (v : World) (u : Use) (xs : List Holder)
    (w : World) (bs cs : List Bool)
    → step moving u (xs, w) ≡ done (ys, v)
    → moves_once (u ∷ us) bs ≡ moves_once us cs
    → Ran w0 us ys v cs
    → Ran w0 (u ∷ us) xs w bs
unfolding steps
Ran-step w0 us ys v u xs w bs cs runs m (inl (once, zs, z, rest, h)) =
    inl (m ∙ once, zs, z, rw runs rest, h)
Ran-step w0 us ys v u xs w bs cs runs m (inr (twice, rest)) = inr (m ∙ twice, rw runs rest)

steps-Ran :
    (w0 : World) (us : List Use) (xs : List Holder) (w : World)
    → Accounts w0 (xs, w)
    → Ran w0 us xs w (map is_held xs)
unfolding steps moves_once step made_from move_construct copy_construct read_int
steps-Ran w0 [] xs w h = inl (refl, xs, w, refl, h)
steps-Ran w0 (makes v ∷ us) xs w h =
    let rest =
      steps-Ran w0 us (xs ++ some (length w.blocks) ∷ []) (built (constructor_a v) v w)
        (Accounts-built w0 xs w (constructor_a v) v h) in
    Ran-step w0 us _ _ (makes v) xs w (map is_held xs) (map is_held xs ++ true ∷ [])
      (rw (construct_lem v w) refl) refl (rw (map_last is_held xs (some (length w.blocks))) at rest)
steps-Ran w0 (takes i ∷ us) xs w h = elim (Option-cases (get_elem? xs i)) [
  | inl e ↦
      Ran-step w0 us _ _ (takes i) xs w (map is_held xs) (map is_held xs)
        (rw (e, step, made_from) refl) (rw (get_elem?-map_missing is_held xs i e, moves_once) refl)
        (steps-Ran w0 us xs w h)
  | inr (none, e) ↦ inr (
    rw (get_elem?-map is_held xs i e, moves_once) refl,
    rw (e, steps, step, made_from, move_construct, read_int) refl,
  )
  | inr (some a, e) ↦
      let (v, reads) = owner_live w0 xs w i a h e in
      let rest =
        steps-Ran w0 us (set xs i none ++ some a ∷ []) (prints (move_constructor_a v) w)
          (Accounts-moved w0 xs w i a (move_constructor_a v) e h) in
      Ran-step w0 us _ _ (takes i) xs w (map is_held xs) (set (map is_held xs) i false ++ true ∷ [])
        (rw (e, step, made_from, move_construct_lem a v w reads) refl)
        (rw (get_elem?-map is_held xs i e, moves_once) refl)
        (rw (map_last is_held (set xs i none) (some a), map-set is_held xs i none) at rest)
]
steps-Ran w0 (copies i ∷ us) xs w h = elim (Option-cases (get_elem? xs i)) [
  | inl e ↦
      Ran-step w0 us _ _ (copies i) xs w (map is_held xs) (map is_held xs)
        (rw (e, step, made_from) refl) (rw (get_elem?-map_missing is_held xs i e, moves_once) refl)
        (steps-Ran w0 us xs w h)
  | inr (none, e) ↦ inr (
    rw (get_elem?-map is_held xs i e, moves_once) refl,
    rw (e, steps, step, made_from, copy_construct, read_int) refl,
  )
  | inr (some a, e) ↦
      let (v, reads) = owner_live w0 xs w i a h e in
      let rest =
        steps-Ran w0 us (xs ++ some (length w.blocks) ∷ []) (built (copy_constructor_a v) v w)
          (Accounts-built w0 xs w (copy_constructor_a v) v h) in
      Ran-step w0 us _ _ (copies i) xs w (map is_held xs) (map is_held xs ++ true ∷ [])
        (rw (e, step, made_from, copy_construct_lem a v w reads, set_same xs i (some a) e) refl)
        (rw (get_elem?-map is_held xs i e, moves_once) refl)
        (rw (map_last is_held xs (some (length w.blocks))) at rest)
]

-- With the constructors of demo1_move_constructor.cpp, any constructions, moves and copies in a
-- scope: if no object is moved or copied from after it was moved from, the scope ends with the
-- blocks that can be used being those from before it; otherwise it reads through a null pointer.
pub moving-scope :
    (us : List Use) (w : World)
    → ((moves_once us [] ≡ true)
        × (w' : World) × (scope moving us w ≡ done w')
        × ((b : ℕ) → live b w'.blocks ≡ live b w.blocks))
      ⊎ ((moves_once us [] ≡ false) × (scope moving us w ≡ overrun))
unfolding scope
moving-scope us w = elim (steps-Ran w us [] w (λ b. omega arith)) [
  | inl (once, xs, v, runs, h) ↦
      let (w', ends, lives, total, keeps) =
        destroy_all-frees moving-Frees xs v (All_any xs) (λ b. omega (arith, h b)) in
      inl (once, w', rw runs ends, λ b. omega (arith, lives b, h b))
  | inr (twice, runs) ↦ inr (twice, rw runs refl)
]
