-- ===== src/Ownership/Scope.antt =====
-- The objects of a scope, which own blocks through a pointer, and the end of the scope, where they
-- are destroyed in the reverse of the order of their construction.
use cpp_example.Common.{
  ℕ, zero, suc, ◌+◌, ◌≤◌, ◌≡◌, ◌∙◌, refl, ◌∙◌, Option, none, some, List, [], ◌∷◌, ◌++◌, length,
  get_elem?, set, All, arith,
}
use cpp_example.Common.Outcome.{Outcome, done, ◌>>=◌, done_injective, >>=-eq-done}
use cpp_example.Ownership.Blocks.{
  Blocks, fetch, release, live, live_total, same, same_refl, release-Released,
}

module _ {O : Type 0} where
  abbrev pub weigh : (O → ℕ) → List O → ℕ
  weigh f [] = 0
  weigh f (x ∷ xs) = f x + weigh f xs

  pub weigh-append : (f : O → ℕ) (xs : List O) (y : O) → weigh f (xs ++ y ∷ []) ≡ weigh f xs + f y
  weigh-append f [] y = omega arith
  weigh-append f (x ∷ xs) y = omega (arith, weigh-append f xs y)

  pub weigh-set :
      (f : O → ℕ) (xs : List O) (i : ℕ) (y : O) {x : O}
      → get_elem? xs i ≡ some x
      → weigh f (set xs i y) + f x ≡ weigh f xs + f y
  weigh-set f [] i y e = cc
  weigh-set f (x ∷ xs) zero y e = ground (arith, e)
  weigh-set f (x ∷ xs) (suc i) y e = omega (arith, weigh-set f xs i y e)

  pub weigh-get_elem :
      (f : O → ℕ) (xs : List O) (i : ℕ) {x : O} → get_elem? xs i ≡ some x → f x ≤ weigh f xs
  weigh-get_elem f [] i e = cc
  weigh-get_elem f (x ∷ xs) zero e = ground (arith, e)
  weigh-get_elem f (x ∷ xs) (suc i) e = omega (arith, weigh-get_elem f xs i e)

  pub All-set : (P : O → Type 0) (xs : List O) (i : ℕ) (y : O) → All P xs → P y → All P (set xs i y)
  All-set P [] i y a p = tt
  All-set P (x ∷ xs) zero y a p = (p, a.1)
  All-set P (x ∷ xs) (suc i) y a p = (a.0, All-set P xs i y a.1 p)

  pub All-get_elem :
      (P : O → Type 0) (xs : List O) (i : ℕ) {x : O} → All P xs → get_elem? xs i ≡ some x → P x
  All-get_elem P [] i a e = cc
  All-get_elem P (y ∷ ys) zero {x} a e = let i : x ≡ y = cc in rw i a.0
  All-get_elem P (x ∷ xs) (suc i) a e = All-get_elem P xs i a.1 e

abbrev pub holds : ℕ → Option ℕ → ℕ
holds b none = 0
holds b (some a) = same a b

abbrev pub held : Option ℕ → ℕ
held none = 0
held (some a) = 1

module _ {O W : Type 0} (destroy : O → W → Outcome W) where
  unfoldable pub destroy_all : List O → W → Outcome W
  destroy_all [] w = done w
  destroy_all (x ∷ xs) w = destroy_all xs w >>= destroy x

module _ {O : Type 0} (ptr : O → Option ℕ) where
  abbrev pub owners : ℕ → List O → ℕ
  owners b = weigh λ x. holds b (ptr x)

  abbrev pub owned : List O → ℕ
  owned = weigh λ x. held (ptr x)

  -- No block has two owners, and every block that has one can be used.
  abbrev pub IsOwned : {B : Type 0} → List O → Blocks B → Type 0
  IsOwned xs h = (b : ℕ) → owners b xs ≤ live b h

-- Destructors that give back the block of an object that is `Ok`, and do nothing else to blocks.
pub record Frees {O B W : Type 0} (ptr : O → Option ℕ) (blocks : W → Blocks B) (Ok : O → Type 0)
    (destroy : O → W → Outcome W) : Type 0 where
  pub frees :
      (x : O) (w : W) (a : ℕ) (h : Blocks B)
      → Ok x
      → ptr x ≡ some a
      → release a (blocks w) ≡ done h
      → (w' : W) × (destroy x w ≡ done w') × (blocks w' ≡ h)
  pub passes :
      (x : O) (w : W)
      → Ok x
      → ptr x ≡ none
      → (w' : W) × (destroy x w ≡ done w') × (blocks w' ≡ blocks w)

module _ {O B W : Type 0} {ptr : O → Option ℕ} {blocks : W → Blocks B} {Ok : O → Type 0}
    {destroy : O → W → Outcome W} (law : Frees ptr blocks Ok destroy) where
  destroy_one :
      (x : O) (w : W) (p : Option ℕ)
      → Ok x
      → ptr x ≡ p
      → ((b : ℕ) → holds b p ≤ live b (blocks w))
      → (w' : W) × (destroy x w ≡ done w')
        × ((b : ℕ) → live b (blocks w') + holds b p ≡ live b (blocks w))
        × (live_total (blocks w') + held p ≡ live_total (blocks w))
        × ((b : ℕ) → 1 ≤ live b (blocks w') → fetch b (blocks w') ≡ fetch b (blocks w))
  destroy_one x w none ok e h =
      let (w', runs, keeps) = law.passes x w ok e in
      (w', runs, (λ b. rw keeps (omega arith)), rw keeps (omega arith), λ b l. rw keeps refl)
  destroy_one x w (some a) ok e h =
      let (rest, r) = release-Released a (blocks w) (omega (arith, same_refl a, h a)) in
      let (w', runs, keeps) = law.frees x w a rest ok e r.gives in
      (
        w',
        runs,
        (λ b. rw keeps (r.others b)),
        rw keeps (omega (arith, r.fewer)),
        λ b l. rw keeps (r.keeps b (rw keeps at l)),
      )

  -- Objects that share no block are all destroyed, and what they own is given back.
  pub destroy_all-frees :
      (xs : List O) (w : W)
      → All Ok xs
      → IsOwned ptr xs (blocks w)
      → (w' : W) × (destroy_all destroy xs w ≡ done w')
        × ((b : ℕ) → live b (blocks w') + owners ptr b xs ≡ live b (blocks w))
        × (live_total (blocks w') + owned ptr xs ≡ live_total (blocks w))
        × ((b : ℕ) → 1 ≤ live b (blocks w') → fetch b (blocks w') ≡ fetch b (blocks w))
  unfolding destroy_all
  destroy_all-frees [] w ok h = (w, refl, (λ b. omega arith), omega arith, λ b l. refl)
  destroy_all-frees (x ∷ xs) w ok h =
      let (w1, runs, lives, total, keeps) = destroy_all-frees xs w ok.1 (λ b. omega (arith, h b)) in
      let (w2, last, lives', total', keeps') =
        destroy_one x w1 (ptr x) ok.0 refl (λ b. omega (arith, h b, lives b)) in
      (
        w2,
        rw runs last,
        (λ b. omega (arith, lives b, lives' b)),
        omega (arith, total, total'),
        λ b l. keeps' b l ∙ keeps b (omega (arith, l, lives' b)),
      )

-- A destructor that gives back the block of every object runs at most once for each block.
module _ {O B W : Type 0} (blocks : W → Blocks B) {destroy : O → W → Outcome W}
    (uses : (x : O) (w w' : W)
      → destroy x w ≡ done w'
      → suc (live_total (blocks w')) ≡ live_total (blocks w)) where
  pub destroy_all_done :
      (xs : List O) (w w' : W)
      → destroy_all destroy xs w ≡ done w'
      → live_total (blocks w') + length xs ≡ live_total (blocks w)
  unfolding destroy_all
  destroy_all_done [] w w' e = rw (done_injective e) (omega arith)
  destroy_all_done (x ∷ xs) w w' e =
      let (w1, runs, last) = >>=-eq-done (destroy_all destroy xs w) (destroy x) e in
      omega (arith, destroy_all_done xs w w1 runs, uses x w1 w' last)
