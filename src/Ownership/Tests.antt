-- ===== src/Ownership/Tests.antt =====
-- rvalue_reference: the theorems at short programs.
use cpp_example.Common.{ℕ, ◌+◌, ◌≡◌, ◌⊎◌, refl, true, false, some, none, List, [], ◌∷◌}
use cpp_example.Common.Related.{Related}
use cpp_example.Common.Outcome.{done, overrun}
use cpp_example.Ownership.Blocks.{fetch, release, live, live_total}
use cpp_example.Ownership.Holder
use cpp_example.Ownership.Holder.{
  get, construct, read_int, copy_construct, destruct, delete_int, move_construct, guarded_destruct,
  Use, makes, takes, copies, deep, moving, shallow, scope, main, main_deep, main_moving,
  main_shallow,
}
use cpp_example.Ownership.Lifetime.Moving.{moves_once, moving-scope}
use cpp_example.Ownership.Lifetime.Shallow.{any_copy, shallow-scope}
use cpp_example.Ownership.Lifetime.Result.{Returns, Dangles, get_owner}
use cpp_example.Ownership.Text
use cpp_example.Ownership.Text.{MyString, Statement, execute_all, run_scope, main_statements}
use cpp_example.Ownership.Text.Values.{
  Values, value_step, value_steps, with_value, assign_value, forgets, forgotten, leaks,
}
use cpp_example.Ownership.Text.Kept.{Shows}
use cpp_example.Ownership.Text.Whole.{statements_refine, scope_leaks}

abbrev empty : Holder.World
empty = record { blocks = []; printed = [] }

abbrev uses : List Use
uses = makes 1 ∷ makes 2 ∷ copies 0 ∷ takes 1 ∷ []

moving-scope_example :
    ((moves_once uses [] ≡ true)
      × (w : Holder.World) × (scope moving uses empty ≡ done w)
      × ((b : ℕ) → live b w.blocks ≡ live b empty.blocks))
    ⊎ ((moves_once uses [] ≡ false) × (scope moving uses empty ≡ overrun))
moving-scope_example = moving-scope uses empty

shallow_copy_fails : scope shallow uses empty ≡ overrun
unfolding live_total any_copy
shallow_copy_fails = shallow-scope uses empty refl refl

get_owner_example : Returns deep false 2 empty × Returns moving false 2 empty × Dangles false empty
get_owner_example = get_owner false empty

abbrev no_strings : Text.World
no_strings = record { blocks = []; printed = [] }

-- "Hi", and "You" moved to it.
abbrev overwriting : List Statement
overwriting =
    Text.makes (72 ∷ 105 ∷ 0 ∷ []) ∷ Text.makes (89 ∷ 111 ∷ 117 ∷ 0 ∷ []) ∷ Text.moves_to 0 1 ∷ []

statements_refine_example :
    ((vs : Values) × (ys : List MyString) × (z : Text.World) × (value_steps overwriting []
        ≡ done vs)
      × (execute_all overwriting ([], no_strings) ≡ done (ys, z))
      × Related (Shows z.blocks) ys vs)
    ⊎ ((value_steps overwriting [] ≡ overrun)
        × (execute_all overwriting ([], no_strings) ≡ overrun))
statements_refine_example = statements_refine overwriting no_strings

scope_leaks_example :
    (w : Text.World) × (run_scope overwriting no_strings ≡ done w)
    × (live_total w.blocks ≡ leaks overwriting [] + live_total no_strings.blocks)
unfolding value_steps value_step assign_value with_value
scope_leaks_example =
    scope_leaks overwriting no_strings (some (89 ∷ 111 ∷ 117 ∷ []) ∷ none ∷ []) refl

overwriting-leaks : leaks overwriting [] ≡ 1
unfolding leaks value_step forgotten assign_value with_value forgets
overwriting-leaks = refl

-- The main of demo2_move_semantics.cpp leaks nothing.
main_leaks_none : leaks (main_statements (72 ∷ 105 ∷ 0 ∷ []) (87 ∷ 0 ∷ [])) [] ≡ 0
unfolding leaks value_step forgotten assign_value with_value forgets
main_leaks_none = refl

-- Of the three mains the last one reads memory that was given back.
mains_end :
    (w : Holder.World) × (v : Holder.World) × (main_deep ≡ done w)
    × (main_moving ≡ done v)
    × (main_shallow ≡ overrun)
unfolding main_deep main_moving main_shallow main get construct read_int fetch copy_construct
    destruct delete_int release move_construct guarded_destruct
mains_end = (_, _, refl, refl, refl)
