-- ===== src/Ownership/Text/Leaks.antt =====
-- rvalue_reference/demo2_move_semantics.cpp: the variables keep their values, and each block is
-- owned by one variable at most.
use cpp_example.Common.{
  ℕ, ◌+◌, ◌≤◌, ◌≡◌, ◌≢◌, refl, sym, ap, ◌∙◌, Option, none, some, List, [], ◌∷◌, ◌++◌, get_elem?,
  get_elem?-set_ne, set, arith,
}
use cpp_example.Common.Related.{Related, Related-append, Related-set, Related-weaken}
use cpp_example.Ownership.Blocks.{Blocks, live, live-append, live_total, live_total-append}
use cpp_example.Ownership.Scope.{weigh-append, weigh-set, holds, held, owners, owned}
use cpp_example.Ownership.Text.{World, MyString, Line, emptied}
use cpp_example.Ownership.Text.Values.{Values}
use cpp_example.Ownership.Text.Kept.{
  Shows, Shows-grow, new_string-Shows, IsText, grown, told, new_string,
}

abbrev pub data_of : MyString → Option ℕ
data_of x = x.m_data

abbrev pub has : Option (List ℕ) → ℕ
has none = 0
has (some s) = 1

-- `lost` blocks that can be used have no owner any more.
pub record Kept (w0 : World) (lost : ℕ) (xs : List MyString) (w : World) (vs : Values)
    : Type 0 where
  pub shown : Related (Shows w.blocks) xs vs
  pub spare : (b : ℕ) → owners data_of b xs ≤ live b w.blocks
  pub total : live_total w.blocks ≡ owned data_of xs + lost + live_total w0.blocks

-- What a variable with a value holds.
Shows-held :
    (h : Blocks (List ℕ)) (x : MyString) (v : Option (List ℕ)) → Shows h x v → held x.m_data ≡ has v
Shows-held h x none (data_is, len) = ap held data_is
Shows-held h x (some s) (a, data_is, len, reads, text) = ap held data_is

emptied-Shows : (h : Blocks (List ℕ)) → Shows h emptied none
emptied-Shows h = (refl, refl)

module _ (w0 : World) {xs : List MyString} {w : World} {vs : Values} {lost : ℕ} where
  pub Kept-default :
      (l : List Line)
      → Kept w0 lost xs w vs
      → Kept w0 lost (xs ++ emptied ∷ []) (record w { printed = l }) (vs ++ none ∷ [])
  Kept-default l k = record {
    shown = Related-append (Shows w.blocks) xs vs k.shown (emptied-Shows w.blocks);
    spare = λ b. omega (arith, k.spare b, weigh-append (λ x. holds b (data_of x)) xs emptied);
    total = omega (arith, k.total, weigh-append (λ x. held (data_of x)) xs emptied);
  }

  grown_shown :
      (l : List ℕ → Line) (s : List ℕ)
      → Kept w0 lost xs w vs
      → Related (Shows (grown l s w).blocks) xs vs
  grown_shown l s k =
      Related-weaken (Shows w.blocks) (Shows (grown l s w).blocks) xs vs
        (Shows-grow w.blocks (some (s ++ 0 ∷ []) ∷ [])) k.shown

  -- A new variable with a block of its own.
  pub Kept-new :
      (l : List ℕ → Line) (s : List ℕ)
      → IsText s
      → Kept w0 lost xs w vs
      → Kept w0 lost (xs ++ new_string s w ∷ []) (grown l s w) (vs ++ some s ∷ [])
  Kept-new l s text k = record {
    shown =
        Related-append (Shows (grown l s w).blocks) xs vs (grown_shown l s k)
          (new_string-Shows l s w text);
    spare = λ b. omega (
      arith,
      k.spare b,
      live-append b w.blocks (s ++ 0 ∷ []),
      weigh-append (λ x. holds b (data_of x)) xs (new_string s w),
    );
    total = omega (
      arith,
      k.total,
      live_total-append w.blocks (s ++ 0 ∷ []),
      weigh-append (λ x. held (data_of x)) xs (new_string s w),
    );
  }

  -- A copy assigned to a variable, whose own block is lost.
  pub Kept-assign :
      (l : List ℕ → Line) (s : List ℕ) (i : ℕ) (x : MyString) (v : Option (List ℕ))
      → IsText s
      → get_elem? xs i ≡ some x
      → Shows w.blocks x v
      → Kept w0 lost xs w vs
      → Kept w0 (lost + has v) (set xs i (new_string s w)) (grown l s w) (set vs i (some s))
  Kept-assign l s i x v text at_i shows k = record {
    shown =
        Related-set (Shows (grown l s w).blocks) xs vs i (grown_shown l s k)
          (new_string-Shows l s w text);
    spare = λ b. omega (
      arith,
      k.spare b,
      live-append b w.blocks (s ++ 0 ∷ []),
      weigh-set (λ y. holds b (data_of y)) xs i (new_string s w) at_i,
    );
    total = omega (
      arith,
      k.total,
      live_total-append w.blocks (s ++ 0 ∷ []),
      Shows-held w.blocks x v shows,
      weigh-set (λ y. held (data_of y)) xs i (new_string s w) at_i,
    );
  }

  -- A block given to a new variable.
  pub Kept-move_new :
      (l : List ℕ → Line) (s : List ℕ) (j : ℕ) (y : MyString)
      → get_elem? xs j ≡ some y
      → Shows w.blocks y (some s)
      → Kept w0 lost xs w vs
      → Kept w0 lost (set xs j emptied ++ y ∷ []) (told l s w) (set vs j none ++ some s ∷ [])
  Kept-move_new l s j y at_j shows k = record {
    shown =
        Related-append (Shows w.blocks) (set xs j emptied) (set vs j none)
          (Related-set (Shows w.blocks) xs vs j k.shown (emptied-Shows w.blocks)) shows;
    spare = λ b. omega (
      arith,
      k.spare b,
      weigh-set (λ z. holds b (data_of z)) xs j emptied at_j,
      weigh-append (λ z. holds b (data_of z)) (set xs j emptied) y,
    );
    total = omega (
      arith,
      k.total,
      weigh-set (λ z. held (data_of z)) xs j emptied at_j,
      weigh-append (λ z. held (data_of z)) (set xs j emptied) y,
    );
  }

  -- A block given to another variable, whose own block is lost.
  pub Kept-move :
      (l : List ℕ → Line) (s : List ℕ) (i j : ℕ) (x y : MyString) (v : Option (List ℕ))
      → i ≢ j
      → get_elem? xs i ≡ some x
      → Shows w.blocks x v
      → get_elem? xs j ≡ some y
      → Shows w.blocks y (some s)
      → Kept w0 lost xs w vs
      → Kept w0
          (lost + has v)
          (set (set xs j emptied) i y)
          (told l s w)
          (set (set vs j none) i (some s))
  Kept-move l s i j x y v apart at_i shows_x at_j shows k =
      let still = get_elem?-set_ne xs j i emptied (λ e. apart (sym e)) ∙ at_i in
      record {
        shown =
            Related-set (Shows w.blocks) (set xs j emptied) (set vs j none) i
              (Related-set (Shows w.blocks) xs vs j k.shown (emptied-Shows w.blocks)) shows;
        spare = λ b. omega (
          arith,
          k.spare b,
          weigh-set (λ z. holds b (data_of z)) xs j emptied at_j,
          weigh-set (λ z. holds b (data_of z)) (set xs j emptied) i y still,
        );
        total = omega (
          arith,
          k.total,
          weigh-set (λ z. held (data_of z)) xs j emptied at_j,
          Shows-held w.blocks x v shows_x,
          weigh-set (λ z. held (data_of z)) (set xs j emptied) i y still,
        );
      }

pub Kept-told :
    {w0 w : World} {lost : ℕ} {xs : List MyString} {vs : Values} (l : List ℕ → Line) (s : List ℕ)
    → Kept w0 lost xs w vs
    → Kept w0 lost xs (told l s w) vs
Kept-told l s k = record { shown = k.shown; spare = k.spare; total = k.total }
