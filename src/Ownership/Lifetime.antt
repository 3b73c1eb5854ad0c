-- ===== src/Ownership/Lifetime.antt =====
-- rvalue_reference/demo1_deep_copy.cpp and demo1_move_constructor.cpp: what any use of the class
-- does to the blocks of the heap.
pub mod Deep
pub mod Moving
pub mod Shallow
pub mod Result
use cpp_example.Common.{
  ℕ, zero, suc, ◌+◌, ◌≤◌, ◌≡◌, refl, sym, ap, ◌∙◌, Bool, true, false, Option, none, some,
  Option-cases, inl, inr, List, [], ◌∷◌, ◌++◌, length, get_elem?, set, All, All-append, map, arith,
}
use cpp_example.Common.Outcome.{Outcome, done, overrun, ◌>>=◌}
use cpp_example.Ownership.Blocks.{
  fetch, release, release-fetch, live, live-append, fetch_last, fetch_live, same, same_refl,
}
use cpp_example.Ownership.Scope.{
  weigh, weigh-append, weigh-set, weigh-get_elem, All-set, All-get_elem, holds, held, owners, Frees,
  destroy_all, destroy_all-frees,
}
use cpp_example.Ownership.Holder.{
  World, Holder, Use, makes, takes, ClassA, deep, moving, construct, copy_construct, move_construct,
  destruct, guarded_destruct, Line, prints, constructor_a, copy_constructor_a, move_constructor_a,
  destructor_a, read_int, delete_int, step, steps, scope,
}

abbrev pub itself : Holder → Option ℕ
itself x = x

-- The blocks that can be used are those of `w` and one for each object that has a pointer.
abbrev pub Accounts : World → List Holder × World → Type 0
Accounts w (xs, v) = (b : ℕ) → live b v.blocks ≡ owners itself b xs + live b w.blocks

abbrev pub NotNull : Holder → Type 0
NotNull x = held x ≡ 1

abbrev pub AnyHolder : Holder → Type 0
AnyHolder x = Unit

-- A destructor reads the block and gives it back.
abbrev pub destroyed : ℕ → ℕ → List (Option ℕ) → World → World
destroyed a v h w = record { blocks = h; printed = w.printed ++ destructor_a a v ∷ [] }

pub destruct_live :
    (a v : ℕ) (w : World) (h : List (Option ℕ))
    → fetch a w.blocks ≡ done v
    → release a w.blocks ≡ done h
    → destruct (some a) w ≡ done (destroyed a v h w)
unfolding destruct delete_int read_int
destruct_live a v w h reads gives = rw (reads, gives) refl

pub deep-Frees : Frees itself (λ w. w.blocks) NotNull destruct
deep-Frees = record {
  frees = λ x w a h ok e r.
      let (v, reads) = release-fetch a w.blocks r in
      (destroyed a v h w, rw e (destruct_live a v w h reads r), refl);
  passes = λ x w ok e.
      let zero_is_one : 0 ≡ 1 = sym (ap held e) ∙ ok in absurd (omega (arith, zero_is_one));
}

pub guarded_live :
    (a v : ℕ) (w : World) (h : List (Option ℕ))
    → fetch a w.blocks ≡ done v
    → release a w.blocks ≡ done h
    → guarded_destruct (some a) w ≡ done (destroyed a v h w)
unfolding guarded_destruct delete_int read_int
guarded_live a v w h reads gives = rw (reads, gives) refl

pub guarded_null : (w : World) → guarded_destruct none w ≡ done w
unfolding guarded_destruct
guarded_null w = refl

pub moving-Frees : Frees itself (λ w. w.blocks) AnyHolder guarded_destruct
moving-Frees = record {
  frees = λ x w a h ok e r.
      let (v, reads) = release-fetch a w.blocks r in
      (destroyed a v h w, rw e (guarded_live a v w h reads r), refl);
  passes = λ x w ok e. (w, rw e (guarded_null w), refl);
}

-- A new block is read back by the constructor that made it.
abbrev pub built : Line → ℕ → World → World
built l v w = record { blocks = w.blocks ++ some v ∷ []; printed = w.printed ++ l ∷ [] }

pub construct_lem :
    (v : ℕ) (w : World) → construct v w ≡ done (some (length w.blocks), built (constructor_a v) v w)
unfolding construct read_int
construct_lem v w = rw (fetch_last w.blocks v) refl

pub copy_construct_lem :
    (a v : ℕ) (w : World)
    → fetch a w.blocks ≡ done v
    → copy_construct (some a) w
      ≡ done (some (length w.blocks), some a, built (copy_constructor_a v) v w)
unfolding copy_construct read_int
copy_construct_lem a v w e = rw (e, fetch_last w.blocks v) refl

pub move_construct_lem :
    (a v : ℕ) (w : World)
    → fetch a w.blocks ≡ done v
    → move_construct (some a) w ≡ done (some a, none, prints (move_constructor_a v) w)
unfolding move_construct read_int
move_construct_lem a v w e = rw e refl

-- A new object with a new block.
pub Accounts-built :
    (w0 : World) (xs : List Holder) (w : World) (l : Line) (v : ℕ)
    → Accounts w0 (xs, w)
    → Accounts w0 (xs ++ some (length w.blocks) ∷ [], built l v w)
Accounts-built w0 xs w l v h b = omega (
  arith,
  h b,
  live-append b w.blocks v,
  weigh-append (λ x. holds b (itself x)) xs (some (length w.blocks)),
)

-- The block of an object that is there can be used.
pub owner_live :
    (w0 : World) (xs : List Holder) (w : World) (i a : ℕ)
    → Accounts w0 (xs, w)
    → get_elem? xs i ≡ some (some a)
    → (v : ℕ) × (fetch a w.blocks ≡ done v)
owner_live w0 xs w i a h e =
    fetch_live a w.blocks
      (omega (arith, h a, same_refl a, weigh-get_elem (λ x. holds a (itself x)) xs i e))

pub owners-set :
    (b i : ℕ) (xs : List Holder) {x : Holder}
    → get_elem? xs i ≡ some x
    → owners itself b (set xs i x) ≡ owners itself b xs
owners-set b i xs {x} e = omega (arith, weigh-set (λ y. holds b (itself y)) xs i x e)
