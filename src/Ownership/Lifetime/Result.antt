-- ===== src/Ownership/Lifetime/Result.antt =====
-- The object that Get of rvalue_reference/demo1_deep_copy.cpp, demo1_move_constructor.cpp and
-- demo1_shallow_copy.cpp returns.
use cpp_example.Common.{
  ℕ, ◌+◌, ◌≤◌, ◌≡◌, refl, ◌∙◌, Bool, true, false, none, some, [], ◌∷◌, ◌++◌, length, length-append,
  if◌then◌else◌, arith,
}
use cpp_example.Common.Outcome.{Outcome, done, overrun, ◌>>=◌, >>=-eq-done}
use cpp_example.Ownership.Blocks.{
  fetch, fetch-append, fetch_last, fetch_dead, live, live_beyond, same, same_refl,
}
use cpp_example.Ownership.Scope.{Frees, destroy_all, destroy_all-frees}
use cpp_example.Ownership.Holder.{
  destruct, guarded_destruct, World, Holder, ClassA, prints, constructor_a, copy_constructor_a,
  move_constructor_a, ready_return, come_here, deep, moving, shallow, read_int, get,
}
use cpp_example.Ownership.Lifetime.{
  itself, Accounts, deep-Frees, moving-Frees, built, construct_lem, copy_construct_lem,
  move_construct_lem, Accounts-built,
}

-- The world in which `return` begins, with `a` and `b` constructed.
abbrev ready : World → World
ready w = prints ready_return (built (constructor_a 2) 2 (built (constructor_a 1) 1 w))

abbrev first_pointer : World → ℕ
first_pointer w = length w.blocks

abbrev second_pointer : World → ℕ
second_pointer w = length (w.blocks ++ some 1 ∷ [])

module _ (w : World) where
  Accounts-ready : Accounts w (some (first_pointer w) ∷ some (second_pointer w) ∷ [], ready w)
  Accounts-ready =
      Accounts-built w (some (first_pointer w) ∷ []) (built (constructor_a 1) 1 w) (constructor_a 2)
        2 (Accounts-built w [] w (constructor_a 1) 1 (λ b. omega arith))

  first_value : fetch (first_pointer w) (ready w).blocks ≡ done 1
  first_value =
      fetch-append (first_pointer w) (w.blocks ++ some 1 ∷ []) (some 2 ∷ []) (fetch_last w.blocks 1)

  second_value : fetch (second_pointer w) (ready w).blocks ≡ done 2
  second_value = fetch_last (w.blocks ++ some 1 ∷ []) 2

-- `return` destroys `b`, then `a`.
leave :
    (d : Holder → World → Outcome World) (a b r : Holder) (w w' : World)
    → destroy_all d (a ∷ b ∷ []) w ≡ done w'
    → (◌>>=◌ {B = Holder × World}
        (d b w)
        λ w5. ◌>>=◌ {B = Holder × World} (d a w5) λ w6. done (r, w6))
      ≡ done (r, w')
unfolding destroy_all
leave d a b r w w' e =
    let (v, first, second) = >>=-eq-done (d b w) (d a) e in rw (first, second) refl

get-true :
    (c : ClassA) (w w4 w' : World) (r a' : Holder)
    → c.transfer (some (first_pointer w)) (ready w) ≡ done (r, a', w4)
    → destroy_all c.destroy (a' ∷ some (second_pointer w) ∷ []) w4 ≡ done w'
    → get c true w ≡ done (r, w')
unfolding get
get-true c w w4 w' r a' made ends =
    rw (construct_lem 1 w, construct_lem 2 (built (constructor_a 1) 1 w), made)
      (leave c.destroy a' (some (second_pointer w)) r w4 w' ends)

get-false :
    (c : ClassA) (w w4 w' : World) (r b' : Holder)
    → c.transfer (some (second_pointer w)) (prints come_here (ready w)) ≡ done (r, b', w4)
    → destroy_all c.destroy (some (first_pointer w) ∷ b' ∷ []) w4 ≡ done w'
    → get c false w ≡ done (r, w')
unfolding get
get-false c w w4 w' r b' made ends =
    rw (construct_lem 1 w, construct_lem 2 (built (constructor_a 1) 1 w), made)
      (leave c.destroy (some (first_pointer w)) b' r w4 w' ends)

-- The result has a block of its own, with the value of the object that was returned, and no other
-- block was added.
abbrev pub Returns : ClassA → Bool → ℕ → World → Type 0
Returns c flag n w =
    (r : ℕ) × (w' : World) × (get c flag w ≡ done (some r, w'))
    × (fetch r w'.blocks ≡ done n)
    × ((b : ℕ) → live b w'.blocks ≡ same r b + live b w.blocks)

-- From a world with the objects of `Get` and its result to the world after the destruction.
module _ (d : Holder → World → Outcome World) {Ok : Holder → Type 0}
    (law : Frees itself (λ u. u.blocks) Ok d) where
  returned :
      (x y : Holder) (r n : ℕ) (w w4 : World)
      → Ok x × Ok y
      → Accounts w (x ∷ y ∷ some r ∷ [], w4)
      → fetch r w4.blocks ≡ done n
      → (w' : World) × (destroy_all d (x ∷ y ∷ []) w4 ≡ done w')
        × (fetch r w'.blocks ≡ done n)
        × ((b : ℕ) → live b w'.blocks ≡ same r b + live b w.blocks)
  returned x y r n w w4 ok h value =
      let (w', ends, lives, total, keeps) =
        destroy_all-frees law (x ∷ y ∷ []) w4 (ok.0, (ok.1, tt)) (λ b. omega (arith, h b)) in
      let after : (b : ℕ) → live b w'.blocks ≡ same r b + live b w.blocks =
        λ b. omega (arith, h b, lives b) in
      (w', ends, keeps r (omega (arith, after r, same_refl r)) ∙ value, after)

module _ (w : World) where
  deep-true : Returns deep true 1 w
  deep-true =
      let a = first_pointer w in
      let b = second_pointer w in
      let r = length (ready w).blocks in
      let w4 = built (copy_constructor_a 1) 1 (ready w) in
      let h =
        Accounts-built w (some a ∷ some b ∷ []) (ready w) (copy_constructor_a 1) 1
          (Accounts-ready w) in
      let (w', ends, value, lives) =
        returned destruct deep-Frees (some a) (some b) r 1 w w4 (refl, refl) h
          (fetch_last (ready w).blocks 1) in
      (
        r,
        w',
        get-true deep w w4 w' (some r) (some a) (copy_construct_lem a 1 (ready w) (first_value w))
            ends,
        value,
        lives,
      )

  deep-false : Returns deep false 2 w
  deep-false =
      let a = first_pointer w in
      let b = second_pointer w in
      let r = length (ready w).blocks in
      let w3 = prints come_here (ready w) in
      let w4 = built (copy_constructor_a 2) 2 w3 in
      let h =
        Accounts-built w (some a ∷ some b ∷ []) w3 (copy_constructor_a 2) 2 (Accounts-ready w) in
      let (w', ends, value, lives) =
        returned destruct deep-Frees (some a) (some b) r 2 w w4 (refl, refl) h
          (fetch_last (ready w).blocks 2) in
      (
        r,
        w',
        get-false deep w w4 w' (some r) (some b) (copy_construct_lem b 2 w3 (second_value w)) ends,
        value,
        lives,
      )

  moving-true : Returns moving true 1 w
  moving-true =
      let a = first_pointer w in
      let b = second_pointer w in
      let w4 = prints (move_constructor_a 1) (ready w) in
      let (w', ends, value, lives) =
        returned guarded_destruct moving-Frees none (some b) a 1 w w4 (tt, tt)
          (λ x. omega (arith, Accounts-ready w x)) (first_value w) in
      (
        a,
        w',
        get-true moving w w4 w' (some a) none (move_construct_lem a 1 (ready w) (first_value w))
            ends,
        value,
        lives,
      )

  moving-false : Returns moving false 2 w
  moving-false =
      let a = first_pointer w in
      let b = second_pointer w in
      let w3 = prints come_here (ready w) in
      let w4 = prints (move_constructor_a 2) w3 in
      let (w', ends, value, lives) =
        returned guarded_destruct moving-Frees (some a) none b 2 w w4 (tt, tt)
          (λ x. omega (arith, Accounts-ready w x)) (second_value w) in
      (
        b,
        w',
        get-false moving w w4 w' (some b) none (move_construct_lem b 2 w3 (second_value w)) ends,
        value,
        lives,
      )

abbrev pub Dangles : Bool → World → Type 0
Dangles flag w =
    (x : Holder) × (w' : World) × (get shallow flag w ≡ done (x, w')) × (read_int x w' ≡ overrun)

module _ (w : World) where
  abandoned :
      (w4 : World)
      → Accounts w (some (first_pointer w) ∷ some (second_pointer w) ∷ [], w4)
      → (w' : World) × (destroy_all destruct
            (some (first_pointer w) ∷ some (second_pointer w) ∷ [])
            w4
          ≡ done w')
        × ((b : ℕ) → live b w'.blocks ≡ live b w.blocks)
  abandoned w4 h =
      let (w', ends, lives, total, keeps) =
        destroy_all-frees deep-Frees (some (first_pointer w) ∷ some (second_pointer w) ∷ []) w4
          (refl, (refl, tt)) (λ b. omega (arith, h b)) in
      (w', ends, λ b. omega (arith, h b, lives b))

  -- A pointer to a block that did not exist before.
  dangling :
      (r : ℕ) (w' : World)
      → length w.blocks ≤ r
      → ((b : ℕ) → live b w'.blocks ≡ live b w.blocks)
      → read_int (some r) w' ≡ overrun
  unfolding read_int
  dangling r w' far lives = fetch_dead r w'.blocks (lives r ∙ live_beyond r w.blocks far)

  shallow-Dangles : (flag : Bool) → Dangles flag w
  shallow-Dangles true =
      let a = first_pointer w in
      let (w', ends, lives) = abandoned (ready w) (Accounts-ready w) in
      (
        some a,
        w',
        get-true shallow w (ready w) w' (some a) (some a) refl ends,
        dangling a w' (omega arith) lives,
      )
  shallow-Dangles false =
      let b = second_pointer w in
      let w4 = prints come_here (ready w) in
      let (w', ends, lives) = abandoned w4 (Accounts-ready w) in
      (
        some b,
        w',
        get-false shallow w w4 w' (some b) (some b) refl ends,
        dangling b w' (omega (arith, length-append w.blocks (some 1 ∷ []))) lives,
      )

-- For every value of the flag and every heap, Get of demo1_deep_copy.cpp and of
-- demo1_move_constructor.cpp ends with an object that has a live block of its own with the value
-- of the object returned, 1 or 2, and leaves no other block; that of demo1_shallow_copy.cpp ends
-- with an object whose block was given back, so that main reads freed memory.
pub get_owner :
    (flag : Bool) (w : World)
    → Returns deep flag (if flag then 1 else 2) w
      × Returns moving flag (if flag then 1 else 2) w
      × Dangles flag w
get_owner true w = (deep-true w, moving-true w, shallow-Dangles w true)
get_owner false w = (deep-false w, moving-false w, shallow-Dangles w false)
