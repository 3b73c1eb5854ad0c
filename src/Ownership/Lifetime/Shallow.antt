-- ===== src/Ownership/Lifetime/Shallow.antt =====
-- rvalue_reference/demo1_shallow_copy.cpp: any copy in a scope.
use cpp_example.Common.{
  ℕ, zero, suc, ◌+◌, ◌≤◌, ◌≡◌, ◌≢◌, ltb, ◌<◌, length-append, length-set, if◌then◌else◌, refl, sym,
  ap, ◌∙◌, Bool, true, false, none, some, Option-cases, inl, inr, List, [], ◌∷◌, ◌++◌, length,
  get_elem?, set, arith,
}
use cpp_example.Common.Outcome.{
  done, overrun, diverged, overrun_of, >>=-eq-diverged, >>=-eq-done, done_injective,
}
use cpp_example.Ownership.Blocks.{
  fetch, fetch_ends, release_ends, live_total-append, release, live_total, done-Released,
}
use cpp_example.Ownership.Scope.{destroy_all, destroy_all_done}
use cpp_example.Ownership.Holder.{
  World, Holder, Use, makes, takes, copies, made_from, shallow, destruct, constructor_a, read_int,
  delete_int, step, steps, scope,
}
use cpp_example.Ownership.Lifetime.{built, construct_lem}

-- Some use is a copy of an object that is there, after `n` of them were constructed.
unfoldable pub any_copy : List Use → ℕ → Bool
any_copy [] n = false
any_copy (makes v ∷ us) n = any_copy us (suc n)
any_copy (takes i ∷ us) n = if ltb i n then true else any_copy us n
any_copy (copies i ∷ us) n = if ltb i n then true else any_copy us n

destruct_uses :
    (x : Holder) (w w' : World)
    → destruct x w ≡ done w'
    → suc (live_total w'.blocks) ≡ live_total w.blocks
unfolding destruct delete_int read_int
destruct_uses none w w' e = cc
destruct_uses (some a) w w' e =
    let (v, reads, deleted) = >>=-eq-done (fetch a w.blocks) _ e in
    let (h, gives, ends) = >>=-eq-done (release a w.blocks) _ deleted in
    ap (λ z. suc (live_total z.blocks)) (sym (done_injective ends))
    ∙ done-Released a w.blocks h gives

destruct_ends : (x : Holder) (w : World) → destruct x w ≢ diverged
unfolding destruct delete_int read_int
destruct_ends none w e = cc
destruct_ends (some a) w e = elim (>>=-eq-diverged (fetch a w.blocks) _ e) [
  | inl l ↦ fetch_ends a w.blocks l
  | inr (v, _, d) ↦ elim (>>=-eq-diverged (release a w.blocks) _ d) [
    | inl l ↦ release_ends a w.blocks l
    | inr (h, _, ends) ↦ cc
  ]
]

destroy_all_ends : (xs : List Holder) (w : World) → destroy_all destruct xs w ≢ diverged
unfolding destroy_all
destroy_all_ends [] w e = cc
destroy_all_ends (x ∷ xs) w e = elim (>>=-eq-diverged (destroy_all destruct xs w) _ e) [
  | inl l ↦ destroy_all_ends xs w l
  | inr (v, _, d) ↦ destruct_ends x v d
]

length_snoc : {A : Type 0} (xs : List A) (y : A) → length (xs ++ y ∷ []) ≡ suc (length xs)
length_snoc xs y = omega (arith, length-append xs (y ∷ []))

ltb-get_elem? :
    {A : Type 0} (xs : List A) (i : ℕ) → get_elem? xs i ≡ none → ltb i (length xs) ≡ false
ltb-get_elem? [] i e = ground arith
ltb-get_elem? (x ∷ xs) zero e = cc
ltb-get_elem? (x ∷ xs) (suc i) e = ground (arith, ltb-get_elem? xs i e)

-- The uses never fail, and each copy makes one more object without one more block.
abbrev Shares : List Use → List Holder → World → Type 0
Shares us xs w =
    (ys : List Holder) × (v : World) × (steps shallow us (xs, w) ≡ done (ys, v))
    × (live_total v.blocks + length xs ≤ live_total w.blocks + length ys)
    × (any_copy us (length xs) ≡ true
        → live_total v.blocks + length xs < live_total w.blocks + length ys)

Shares-take :
    (i : ℕ) (us : List Use) (xs : List Holder) (w : World)
    → ((zs : List Holder) → Shares us zs w)
    → Shares (takes i ∷ us) xs w
unfolding steps any_copy step made_from
Shares-take i us xs w later = elim (Option-cases (get_elem? xs i)) [
  | inl e ↦
      let (ys, z, runs, more, strict) = later xs in
      (
        ys,
        z,
        rw (e, step, made_from) runs,
        more,
        λ c. strict (sym (rw (ltb-get_elem? xs i e, any_copy) refl) ∙ c),
      )
  | inr (x, e) ↦
      let (ys, z, runs, more, strict) = later (set xs i x ++ x ∷ []) in
      let longer : length (set xs i x ++ x ∷ []) ≡ suc (length xs) =
        length_snoc (set xs i x) x ∙ ap suc (length-set xs i x) in
      (
        ys,
        z,
        rw (e, step, made_from) runs,
        omega (arith, more, longer),
        λ c. omega (arith, more, longer),
      )
]

shallow-steps : (us : List Use) (xs : List Holder) (w : World) → Shares us xs w
unfolding steps any_copy step
shallow-steps [] xs w = (xs, w, refl, omega arith, λ e. cc)
shallow-steps (makes v ∷ us) xs w =
    let x = some (length w.blocks) in
    let (ys, z, runs, more, strict) =
      shallow-steps us (xs ++ x ∷ []) (built (constructor_a v) v w) in
    (
      ys,
      z,
      rw (step, construct_lem v w) runs,
      omega (arith, more, live_total-append w.blocks v, length_snoc xs x),
      λ e. omega (
        arith,
        strict (ap (any_copy us) (length_snoc xs x) ∙ e),
        live_total-append w.blocks v,
        length_snoc xs x,
      ),
    )
shallow-steps (takes i ∷ us) xs w = Shares-take i us xs w (λ zs. shallow-steps us zs w)
shallow-steps (copies i ∷ us) xs w = Shares-take i us xs w (λ zs. shallow-steps us zs w)

-- With the copy constructor that the compiler makes, as in demo1_shallow_copy.cpp, a scope that
-- begins with no block in use and copies an object that is there uses a block that was given back.
pub shallow-scope :
    (us : List Use) (w : World)
    → live_total w.blocks ≡ 0
    → any_copy us 0 ≡ true
    → scope shallow us w ≡ overrun
unfolding scope
shallow-scope us w h c =
    let (xs, v, runs, more, strict) = shallow-steps us [] w in
    rw runs (
      overrun_of (destroy_all destruct xs v)
        (λ z e.
          absurd
            (omega (arith, h, strict c, destroy_all_done (λ u. u.blocks) destruct_uses xs v z e)))
        (destroy_all_ends xs v))
