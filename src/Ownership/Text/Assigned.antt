-- ===== src/Ownership/Text/Assigned.antt =====
-- rvalue_reference/demo2_move_semantics.cpp: the assignments, and what they lose.
use cpp_example.Common.{
  ℕ, ◌+◌, ◌≡◌, refl, true, false, Option, none, some, Option-cases, List, [], ◌∷◌, ◌++◌, get_elem?,
  set, arith, ◌==◌, Bool-cases, inl, inr,
}
use cpp_example.Common.Related.{Related-get_elem?, Related-none}
use cpp_example.Ownership.Text.{
  World, MyString, emptied, Statement, makes_default, makes, copies_to_new, moves_to_new, copies_to,
  moves_to, default_constructor, default_string, copy_assignment, move_assignment, execute,
  with_variable,
}
use cpp_example.Ownership.Text.Values.{
  Values, with_value, assign_value, value_step, forgets, forgotten,
}
use cpp_example.Ownership.Text.Kept.{
  Shows, grown, told, new_string, duplicate-Shows, duplicate-null, move-Shows, move-null,
  put_string-Shows, put_string-null,
}
use cpp_example.Ownership.Text.Leaks.{Kept, Kept-default, Kept-assign, Kept-move, Kept-told, has}
use cpp_example.Ownership.Text.Refined.{
  Agrees, Agrees-lost, apart, text_of, absent, empty, text, source, makes-Agrees, copies_new-Agrees,
  moves_new-Agrees,
}

module _ (i j : ℕ) (vs : Values) where
  forgets_same : (i == j) ≡ true → forgets i j vs ≡ 0
  unfolding forgets
  forgets_same e = rw (e, forgets) refl

  forgets_absent : get_elem? vs j ≡ none → forgets i j vs ≡ 0
  unfolding forgets
  forgets_absent e = elim (Bool-cases (i == j)) [
    | inl b ↦ forgets_same b
    | inr b ↦ rw (b, forgets, e) refl
  ]

  forgets_target : get_elem? vs i ≡ none → forgets i j vs ≡ 0
  unfolding forgets
  forgets_target e = elim (Bool-cases (i == j)) [
    | inl b ↦ forgets_same b
    | inr b ↦ elim (Option-cases (get_elem? vs j)) [
      | inl e' ↦ forgets_absent e'
      | inr (u, e') ↦ rw (b, forgets, e', e) refl
    ]
  ]

  forgets_over :
      {u : Option (List ℕ)} (v : Option (List ℕ))
      → (i == j) ≡ false
      → get_elem? vs j ≡ some u
      → get_elem? vs i ≡ some v
      → forgets i j vs ≡ has v
  unfolding forgets
  forgets_over none b e e' = rw (b, forgets, e, e') refl
  forgets_over (some s) b e e' = rw (b, forgets, e, e') refl

Kept-lost :
    {w0 w : World} {xs : List MyString} {vs : Values} (m n : ℕ)
    → m ≡ n
    → Kept w0 n xs w vs
    → Kept w0 m xs w vs
Kept-lost m n e k = rw e k

module _ (w0 : World) (lost : ℕ) (xs : List MyString) (w : World) (vs : Values)
    (k : Kept w0 lost xs w vs) where
  -- What an assignment does when its target is there.
  copies_present :
      (i j : ℕ) (x : MyString) (v : Option (List ℕ))
      → get_elem? xs i ≡ some x
      → get_elem? vs i ≡ some v
      → Shows w.blocks x v
      → Agrees w0
          (lost + forgets i j vs)
          (value_step (copies_to i j) vs)
          (execute (copies_to i j) (xs, w))
  unfolding value_step execute with_value assign_value with_variable
  copies_present i j x v at_i at_i' shows_i = elim (source w0 lost xs w vs k j) [
    | absent e e' ↦ inl (
      vs,
      xs,
      w,
      rw (at_i', value_step, assign_value, e', with_value) refl,
      rw (at_i, execute, with_variable, e) refl,
      Kept-lost _ lost (omega (arith, forgets_absent i j vs e')) k,
    )
    | empty y e e' shows ↦ inr (
      rw (at_i', value_step, assign_value, e', with_value) refl,
      elim (Bool-cases (i == j)) [
        | inl b ↦
            rw (at_i, execute, with_variable, e, b, put_string-null w y copy_assignment shows) refl
        | inr b ↦
            rw (at_i, execute, with_variable, e, b, duplicate-null w y copy_assignment shows) refl
      ],
    )
    | text y s e e' shows ↦ elim (Bool-cases (i == j)) [
      | inl b ↦ inl (
        vs,
        xs,
        told copy_assignment s w,
        rw (at_i', value_step, assign_value, e', with_value, b) refl,
        rw (at_i, execute, with_variable, e, b, put_string-Shows w y copy_assignment s shows) refl,
        Kept-lost _ lost (omega (arith, forgets_same i j vs b)) (Kept-told copy_assignment s k),
      )
      | inr b ↦ inl (
        set vs i (some s),
        set xs i (new_string s w),
        grown copy_assignment s w,
        rw (at_i', value_step, assign_value, e', with_value, b) refl,
        rw (at_i, execute, with_variable, e, b, duplicate-Shows w y copy_assignment s shows) refl,
        Kept-lost _ (lost + has v) (omega (arith, forgets_over i j vs v b e' at_i'))
            (Kept-assign w0 copy_assignment s i x v (text_of w.blocks y s shows) at_i shows_i k),
      )
    ]
  ]

  moves_present :
      (i j : ℕ) (x : MyString) (v : Option (List ℕ))
      → get_elem? xs i ≡ some x
      → get_elem? vs i ≡ some v
      → Shows w.blocks x v
      → Agrees w0
          (lost + forgets i j vs)
          (value_step (moves_to i j) vs)
          (execute (moves_to i j) (xs, w))
  unfolding value_step execute with_value assign_value with_variable
  moves_present i j x v at_i at_i' shows_i = elim (source w0 lost xs w vs k j) [
    | absent e e' ↦ inl (
      vs,
      xs,
      w,
      rw (at_i', value_step, assign_value, e', with_value) refl,
      rw (at_i, execute, with_variable, e) refl,
      Kept-lost _ lost (omega (arith, forgets_absent i j vs e')) k,
    )
    | empty y e e' shows ↦ inr (
      rw (at_i', value_step, assign_value, e', with_value) refl,
      elim (Bool-cases (i == j)) [
        | inl b ↦
            rw (at_i, execute, with_variable, e, b, put_string-null w y move_assignment shows) refl
        | inr b ↦ rw (at_i, execute, with_variable, e, b, move-null w y move_assignment shows) refl
      ],
    )
    | text y s e e' shows ↦ elim (Bool-cases (i == j)) [
      | inl b ↦ inl (
        vs,
        xs,
        told move_assignment s w,
        rw (at_i', value_step, assign_value, e', with_value, b) refl,
        rw (at_i, execute, with_variable, e, b, put_string-Shows w y move_assignment s shows) refl,
        Kept-lost _ lost (omega (arith, forgets_same i j vs b)) (Kept-told move_assignment s k),
      )
      | inr b ↦ inl (
        set (set vs j none) i (some s),
        set (set xs j emptied) i y,
        told move_assignment s w,
        rw (at_i', value_step, assign_value, e', with_value, b) refl,
        rw (at_i, execute, with_variable, e, b, move-Shows w y move_assignment s shows) refl,
        Kept-lost _ (lost + has v) (omega (arith, forgets_over i j vs v b e' at_i'))
            (Kept-move w0 move_assignment s i j x y v (apart i j b) at_i shows_i e shows k),
      )
    ]
  ]

  copies-Agrees :
      (i j : ℕ)
      → Agrees w0
          (lost + forgets i j vs)
          (value_step (copies_to i j) vs)
          (execute (copies_to i j) (xs, w))
  unfolding value_step execute assign_value with_variable
  copies-Agrees i j = elim (Option-cases (get_elem? xs i)) [
    | inl e ↦
        let e' = Related-none (Shows w.blocks) xs vs i k.shown e in
        inl (
          vs,
          xs,
          w,
          rw (e', value_step, assign_value) refl,
          rw (e, execute, with_variable) refl,
          Kept-lost _ lost (omega (arith, forgets_target i j vs e')) k,
        )
    | inr (x, e) ↦
        let (v, e', shows) = Related-get_elem? (Shows w.blocks) xs vs i k.shown e in
        copies_present i j x v e e' shows
  ]

  moves-Agrees :
      (i j : ℕ)
      → Agrees w0
          (lost + forgets i j vs)
          (value_step (moves_to i j) vs)
          (execute (moves_to i j) (xs, w))
  unfolding value_step execute assign_value with_variable
  moves-Agrees i j = elim (Option-cases (get_elem? xs i)) [
    | inl e ↦
        let e' = Related-none (Shows w.blocks) xs vs i k.shown e in
        inl (
          vs,
          xs,
          w,
          rw (e', value_step, assign_value) refl,
          rw (e, execute, with_variable) refl,
          Kept-lost _ lost (omega (arith, forgets_target i j vs e')) k,
        )
    | inr (x, e) ↦
        let (v, e', shows) = Related-get_elem? (Shows w.blocks) xs vs i k.shown e in
        moves_present i j x v e e' shows
  ]

  pub statement-Agrees :
      (u : Statement) → Agrees w0 (lost + forgotten u vs) (value_step u vs) (execute u (xs, w))
  unfolding value_step execute forgotten default_string
  statement-Agrees makes_default = Agrees-lost _ lost (omega arith) (
      inl (
        vs ++ none ∷ [],
        xs ++ emptied ∷ [],
        record w { printed = w.printed ++ default_constructor ∷ [] },
        refl,
        refl,
        Kept-default w0 (w.printed ++ default_constructor ∷ []) k,
      ))
  statement-Agrees (makes p) = Agrees-lost _ lost (omega arith) (makes-Agrees w0 lost xs w vs k p)
  statement-Agrees (copies_to_new j) =
      Agrees-lost _ lost (omega arith) (copies_new-Agrees w0 lost xs w vs k j)
  statement-Agrees (moves_to_new j) =
      Agrees-lost _ lost (omega arith) (moves_new-Agrees w0 lost xs w vs k j)
  statement-Agrees (copies_to i j) = copies-Agrees i j
  statement-Agrees (moves_to i j) = moves-Agrees i j
