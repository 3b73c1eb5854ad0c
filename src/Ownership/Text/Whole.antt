-- ===== src/Ownership/Text/Whole.antt =====
-- rvalue_reference/demo2_move_semantics.cpp: a whole scope of strings.
use cpp_example.Common.{ℕ, ◌+◌, ◌≡◌, ◌⊎◌, refl, List, [], ◌∷◌, All, arith, inl, inr}
use cpp_example.Common.Related.{Related}
use cpp_example.Common.Outcome.{done, overrun}
use cpp_example.Ownership.Blocks.{live_total}
use cpp_example.Ownership.Scope.{Frees, destroy_all-frees}
use cpp_example.Ownership.Text.{World, MyString, Statement, destroy, execute_all, run_scope}
use cpp_example.Ownership.Text.Values.{Values, value_step, value_steps, forgotten, leaks}
use cpp_example.Ownership.Text.Kept.{Shows}
use cpp_example.Ownership.Text.Leaks.{Kept, data_of}
use cpp_example.Ownership.Text.Refined.{Agrees, Agrees-lost}
use cpp_example.Ownership.Text.Assigned.{statement-Agrees}

leaks_done :
    (u : Statement) (us : List Statement) (vs ws : Values)
    → value_step u vs ≡ done ws
    → leaks (u ∷ us) vs ≡ forgotten u vs + leaks us ws
unfolding leaks
leaks_done u us vs ws e = rw (e, leaks) refl

statements_agree :
    (w0 : World) (us : List Statement) (lost : ℕ) (xs : List MyString) (w : World) (vs : Values)
    → Kept w0 lost xs w vs
    → Agrees w0 (lost + leaks us vs) (value_steps us vs) (execute_all us (xs, w))
unfolding value_steps execute_all leaks
statements_agree w0 [] lost xs w vs k =
    Agrees-lost _ lost (omega arith) (inl (vs, xs, w, refl, refl, k))
statements_agree w0 (u ∷ us) lost xs w vs k = elim (statement-Agrees w0 lost xs w vs k u) [
  | inl (ws, ys, z, e, e', k') ↦
      let rest = statements_agree w0 us (lost + forgotten u vs) ys z ws k' in
      rw (e, value_steps, e', execute_all)
        (Agrees-lost _ (lost + forgotten u vs + leaks us ws)
          (omega (arith, leaks_done u us vs ws e)) rest)
  | inr (e, e') ↦ inr (rw (e, value_steps) refl, rw (e', execute_all) refl)
]

at_start : (w : World) → Kept w 0 [] w []
at_start w = record { shown = tt; spare = λ b. omega arith; total = omega arith }

-- Any statements on strings, from a scope without variables, fail exactly if the same statements
-- on values fail, which is when a string that is empty after its default constructor or a move is
-- read, or an argument has no zero; if not, each variable has its value, with a zero behind it.
pub statements_refine :
    (us : List Statement) (w : World)
    → ((vs : Values) × (ys : List MyString) × (z : World) × (value_steps us [] ≡ done vs)
        × (execute_all us ([], w) ≡ done (ys, z))
        × Related (Shows z.blocks) ys vs)
      ⊎ ((value_steps us [] ≡ overrun) × (execute_all us ([], w) ≡ overrun))
statements_refine us w = elim (statements_agree w us 0 [] w [] (at_start w)) [
  | inl (vs, ys, z, e, e', k) ↦ inl (vs, ys, z, e, e', k.shown)
  | inr failed ↦ inr failed
]

Any : MyString → Type 0
Any x = Unit

all-Any : (xs : List MyString) → All Any xs
unfolding Any
all-Any [] = tt
all-Any (x ∷ xs) = (tt, all-Any xs)

destroy-Frees : Frees data_of (λ w. w.blocks) Any destroy
unfolding destroy
destroy-Frees = record {
  frees = λ x w a h ok e r. (record w { blocks = h }, rw (e, destroy, r) refl, refl);
  passes = λ x w ok e. (w, rw (e, destroy) refl, refl);
}

-- A scope of strings whose statements do not fail gives back no block twice, and the blocks that
-- can be used after it are more than those before it by the number of its assignments of another
-- variable to one that had a string.
pub scope_leaks :
    (us : List Statement) (w : World) (vs : Values)
    → value_steps us [] ≡ done vs
    → (w' : World) × (run_scope us w ≡ done w')
      × (live_total w'.blocks ≡ leaks us [] + live_total w.blocks)
unfolding run_scope
scope_leaks us w vs h = elim (statements_agree w us 0 [] w [] (at_start w)) [
  | inl (ws, ys, z, e, e', k) ↦
      let (w', ends, lives, total, keeps) =
        destroy_all-frees destroy-Frees ys z (all-Any ys) k.spare in
      (w', rw e' ends, omega (arith, total, k.total))
  | inr (e, e') ↦ cc
]
