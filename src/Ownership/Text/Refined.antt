-- ===== src/Ownership/Text/Refined.antt =====
-- rvalue_reference/demo2_move_semantics.cpp: the statements refine those on values, and what they
-- leave on the heap.
use cpp_example.Common.{
  ℕ, ◌≡◌, ◌≢◌, ◌⊎◌, refl, false, Option, none, some, Option-cases, List, [], ◌∷◌, ◌++◌, get_elem?,
  set, ◌==◌, ==_refl, inl, inr,
}
use cpp_example.Common.Related.{Related-get_elem?, Related-none}
use cpp_example.Common.Outcome.{Outcome, done, overrun, printed_string}
use cpp_example.Ownership.Blocks.{Blocks}
use cpp_example.Ownership.Text.{
  World, MyString, emptied, makes, copies_to_new, moves_to_new, ordinary_constructor,
  copy_constructor, move_constructor, execute, with_variable,
}
use cpp_example.Ownership.Text.Values.{Values, with_value, value_step}
use cpp_example.Ownership.Text.Kept.{
  Shows, grown, told, new_string, read_string, string_cases, ordinary_lem, ordinary_overrun,
  duplicate-Shows, duplicate-null, move-Shows, move-null,
}
use cpp_example.Ownership.Text.Leaks.{Kept, Kept-new, Kept-move_new}

-- A statement on values and one on variables both fail, or both succeed and agree.
abbrev pub Agrees : World → ℕ → Outcome Values → Outcome (List MyString × World) → Type 0
Agrees w0 lost values variables =
    ((vs : Values) × (ys : List MyString) × (z : World) × (values ≡ done vs)
      × (variables ≡ done (ys, z))
      × Kept w0 lost ys z vs)
    ⊎ ((values ≡ overrun) × (variables ≡ overrun))

pub apart : (i j : ℕ) → (i == j) ≡ false → i ≢ j
apart i j e h = cc (==_refl j)

pub text_of :
    (h : Blocks (List ℕ)) (x : MyString) (s : List ℕ)
    → Shows h x (some s)
    → printed_string (s ++ 0 ∷ []) ≡ done s
text_of h x s (a, data_is, len, reads, text) = text

pub Agrees-lost :
    {w0 : World} {values : Outcome Values} {variables : Outcome (List MyString × World)} (m n : ℕ)
    → m ≡ n
    → Agrees w0 n values variables
    → Agrees w0 m values variables
Agrees-lost m n e a = rw e a

module _ (w0 : World) (lost : ℕ) (xs : List MyString) (w : World) (vs : Values)
    (k : Kept w0 lost xs w vs) where
  -- The variable that a statement reads.
  pub data Source (j : ℕ) : Type 0 where
    absent : get_elem? xs j ≡ none → get_elem? vs j ≡ none → Source j
    empty :
        (x : MyString)
        → get_elem? xs j ≡ some x
        → get_elem? vs j ≡ some none
        → Shows w.blocks x none
        → Source j
    text :
        (x : MyString) (s : List ℕ)
        → get_elem? xs j ≡ some x
        → get_elem? vs j ≡ some (some s)
        → Shows w.blocks x (some s)
        → Source j

  present :
      (j : ℕ) (x : MyString) (v : Option (List ℕ))
      → get_elem? xs j ≡ some x
      → get_elem? vs j ≡ some v
      → Shows w.blocks x v
      → Source j
  present j x none = empty x
  present j x (some s) = text x s

  pub source : (j : ℕ) → Source j
  source j = elim (Option-cases (get_elem? xs j)) [
    | inl e ↦ absent e (Related-none (Shows w.blocks) xs vs j k.shown e)
    | inr (x, e) ↦
        let (v, e', shows) = Related-get_elem? (Shows w.blocks) xs vs j k.shown e in
        present j x v e e' shows
  ]

  pub makes-Agrees :
      (p : List ℕ) → Agrees w0 lost (value_step (makes p) vs) (execute (makes p) (xs, w))
  unfolding value_step execute
  makes-Agrees p = elim (string_cases p) [
    | inl (s, e) ↦ inl (
      vs ++ some s ∷ [],
      xs ++ new_string s w ∷ [],
      grown ordinary_constructor s w,
      rw (e, value_step) refl,
      rw (ordinary_lem p s w e, execute) refl,
      Kept-new w0 ordinary_constructor s (read_string p s e).1 k,
    )
    | inr e ↦ inr (rw (e, value_step) refl, rw (ordinary_overrun p w e, execute) refl)
  ]

  pub copies_new-Agrees :
      (j : ℕ) → Agrees w0 lost (value_step (copies_to_new j) vs) (execute (copies_to_new j) (xs, w))
  unfolding value_step execute with_value with_variable
  copies_new-Agrees j = elim (source j) [
    | absent e e' ↦
        inl
          (vs, xs, w, rw (e', value_step, with_value) refl, rw (e, execute, with_variable) refl, k)
    | empty x e e' shows ↦ inr (
      rw (e', value_step, with_value) refl,
      rw (e, execute, with_variable, duplicate-null w x copy_constructor shows) refl,
    )
    | text x s e e' shows ↦ inl (
      vs ++ some s ∷ [],
      xs ++ new_string s w ∷ [],
      grown copy_constructor s w,
      rw (e', value_step, with_value) refl,
      rw (e, execute, with_variable, duplicate-Shows w x copy_constructor s shows) refl,
      Kept-new w0 copy_constructor s (text_of w.blocks x s shows) k,
    )
  ]

  pub moves_new-Agrees :
      (j : ℕ) → Agrees w0 lost (value_step (moves_to_new j) vs) (execute (moves_to_new j) (xs, w))
  unfolding value_step execute with_value with_variable
  moves_new-Agrees j = elim (source j) [
    | absent e e' ↦
        inl
          (vs, xs, w, rw (e', value_step, with_value) refl, rw (e, execute, with_variable) refl, k)
    | empty x e e' shows ↦ inr (
      rw (e', value_step, with_value) refl,
      rw (e, execute, with_variable, move-null w x move_constructor shows) refl,
    )
    | text x s e e' shows ↦ inl (
      set vs j none ++ some s ∷ [],
      set xs j emptied ++ x ∷ [],
      told move_constructor s w,
      rw (e', value_step, with_value) refl,
      rw (e, execute, with_variable, move-Shows w x move_constructor s shows) refl,
      Kept-move_new w0 move_constructor s j x e shows k,
    )
  ]
