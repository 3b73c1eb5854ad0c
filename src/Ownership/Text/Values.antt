-- ===== src/Ownership/Text/Values.antt =====
-- rvalue_reference/demo2_move_semantics.cpp: the statements on strings as values, without a heap.
use cpp_example.Common.{
  ℕ, ◌+◌, ◌==◌, Option, none, some, List, [], ◌∷◌, ◌++◌, get_elem?, set, if◌then◌else◌,
}
use cpp_example.Common.Outcome.{Outcome, done, overrun, ◌>>=◌, printed_string}
use cpp_example.Ownership.Text.{
  Statement, makes_default, makes, copies_to_new, moves_to_new, copies_to, moves_to,
}

-- A variable has a string, or none as after the default constructor or a move.
abbrev pub Values : Type 0
Values = List (Option (List ℕ))

-- The value of a variable that is read; one that has none is an error.
unfoldable pub with_value : ℕ → Values → (List ℕ → Outcome Values) → Outcome Values
with_value j vs k = elim (get_elem? vs j) [
  | none ↦ done vs
  | some none ↦ overrun
  | some (some s) ↦ k s
]

unfoldable pub assign_value : ℕ → ℕ → Values → (List ℕ → Values) → Outcome Values
assign_value i j vs after = elim (get_elem? vs i) [
  | none ↦ done vs
  | some v ↦ with_value j vs λ s. done (if i == j then vs else after s)
]

unfoldable pub value_step : Statement → Values → Outcome Values
value_step makes_default vs = done (vs ++ none ∷ [])
value_step (makes p) vs = printed_string p >>= λ s. done (vs ++ some s ∷ [])
value_step (copies_to_new j) vs = with_value j vs λ s. done (vs ++ some s ∷ [])
value_step (moves_to_new j) vs = with_value j vs λ s. done (set vs j none ++ some s ∷ [])
value_step (copies_to i j) vs = assign_value i j vs λ s. set vs i (some s)
value_step (moves_to i j) vs = assign_value i j vs λ s. set (set vs j none) i (some s)

unfoldable pub value_steps : List Statement → Values → Outcome Values
value_steps [] vs = done vs
value_steps (u ∷ us) vs = value_step u vs >>= value_steps us

-- An assignment of another variable to one that has a string forgets the string's block.
unfoldable pub forgets : ℕ → ℕ → Values → ℕ
forgets i j vs = if i == j then 0 else elim (get_elem? vs j) [
  | none ↦ 0
  | some v ↦ elim (get_elem? vs i) [ some (some s) ↦ 1 | _ ↦ 0 ]
]

unfoldable pub forgotten : Statement → Values → ℕ
forgotten (copies_to i j) vs = forgets i j vs
forgotten (moves_to i j) vs = forgets i j vs
forgotten _ vs = 0

unfoldable pub leaks : List Statement → Values → ℕ
leaks [] vs = 0
leaks (u ∷ us) vs = elim (value_step u vs) [ done ws ↦ forgotten u vs + leaks us ws | _ ↦ 0 ]
