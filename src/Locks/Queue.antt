-- ===== src/Locks/Queue.antt =====
-- mutex/demo5_unique_lock.cpp: one thread that puts numbers into a deque and one that takes
-- them out. What happens under the lock is one step; the counter does not reach the end of int.
use cpp_example.Common.{
  ℕ, zero, suc, ◌≡◌, ◌⊎◌, inl, inr, refl, sym, ap, ◌∙◌, Option, none, some, Option-cases, List, [],
  ◌∷◌, ◌++◌, append-nil, append_assoc,
}

-- `q` from its front on, and the values that were printed.
pub record Shared : Type 0 where
  pub q : List ℕ
  pub count : ℕ
  pub printed : List ℕ

abbrev pub empty : Shared
empty = record { q = []; count = 0; printed = [] }

-- One pass of the loop of `fun1`: `q.push_front(count++)`.
unfoldable pub fun1_pass : Shared → Shared
fun1_pass s = record s { q = s.count ∷ s.q; count = suc s.count }

-- `q.back()` and the deque after `q.pop_back()`.
unfoldable pub pop_back : List ℕ → Option (List ℕ × ℕ)
pop_back [] = none
pop_back (x ∷ xs) = elim (pop_back xs) [ none ↦ some ([], x) | some (rest, y) ↦ some (x ∷ rest, y) ]

-- One pass of the loop of `fun2`; `none` where it waits.
unfoldable pub fun2_pass : Shared → Option Shared
fun2_pass s = elim (pop_back s.q) [
  | none ↦ none
  | some (rest, data_item) ↦ some (record s { q = rest; printed = s.printed ++ data_item ∷ [] })
]

pub data Pass : Type 0 where
  fun1 fun2 : Pass

unfoldable pub pass : Pass → Shared → Option Shared
pass fun1 s = some (fun1_pass s)
pass fun2 s = fun2_pass s

unfoldable pub passes : List Pass → Shared → Option Shared
passes [] s = some s
passes (p ∷ ps) s = elim (pass p s) [ none ↦ none | some s' ↦ passes ps s' ]

abbrev pub reversed : List ℕ → List ℕ
reversed [] = []
reversed (x ∷ xs) = reversed xs ++ x ∷ []

abbrev pub numbers_below : ℕ → List ℕ
numbers_below zero = []
numbers_below (suc n) = numbers_below n ++ n ∷ []

-- What was printed, and then what waits in the deque from its back on, are the numbers so far.
abbrev pub IsOrdered : Shared → Type 0
IsOrdered s = s.printed ++ reversed s.q ≡ numbers_below s.count

pop_cases :
    (xs : List ℕ)
    → ((xs ≡ []) × (pop_back xs ≡ none))
      ⊎ ((rest : List ℕ) × (y : ℕ) × (pop_back xs ≡ some (rest, y))
          × (reversed xs ≡ y ∷ reversed rest))
unfolding pop_back
pop_cases [] = inl (refl, refl)
pop_cases (x ∷ xs) = elim (pop_cases xs) [
  | inl (e, h) ↦ inr ([], x, rw (h, pop_back) refl, rw e refl)
  | inr (rest, y, h, r) ↦ inr (x ∷ rest, y, rw (h, pop_back) refl, rw r refl)
]

fun1-IsOrdered : (s : Shared) → IsOrdered s → IsOrdered (fun1_pass s)
unfolding fun1_pass
fun1-IsOrdered s h =
    sym (append_assoc s.printed (reversed s.q) (s.count ∷ [])) ∙ ap (λ l. l ++ s.count ∷ []) h

fun2-IsOrdered : (s s' : Shared) → IsOrdered s → fun2_pass s ≡ some s' → IsOrdered s'
unfolding fun2_pass
fun2-IsOrdered s s' h e = elim (pop_cases s.q) [
  | inl (_, waits) ↦ let stuck : none ≡ some s' = rw (waits, fun2_pass) at e in cc
  | inr (rest, y, pops, r) ↦
      let is : some (record s { q = rest; printed = s.printed ++ y ∷ [] }) ≡ some s' =
        rw (pops, fun2_pass) at e in
      let same : record s { q = rest; printed = s.printed ++ y ∷ [] } ≡ s' = cc in
      let kept : s.printed ++ y ∷ reversed rest ≡ numbers_below s.count = rw r at h in
      rw (sym same) (append_assoc s.printed (y ∷ []) (reversed rest) ∙ kept)
]

pass-IsOrdered : (p : Pass) (s s' : Shared) → IsOrdered s → pass p s ≡ some s' → IsOrdered s'
unfolding pass
pass-IsOrdered fun1 s s' h e =
    let same : fun1_pass s ≡ s' = cc in rw (sym same) (fun1-IsOrdered s h)
pass-IsOrdered fun2 s s' h e = fun2-IsOrdered s s' h e

passes-IsOrdered :
    (ps : List Pass) (s s' : Shared) → IsOrdered s → passes ps s ≡ some s' → IsOrdered s'
unfolding passes
passes-IsOrdered [] s s' h e = let same : s ≡ s' = cc in rw (sym same) h
passes-IsOrdered (p ∷ ps) s s' h e = elim (Option-cases (pass p s)) [
  | inl stuck ↦ let none_left : none ≡ some s' = rw (stuck, passes) at e in cc
  | inr (s1, first) ↦
      passes-IsOrdered ps s1 s' (pass-IsOrdered p s s1 h first) (rw (first, passes) at e)
]

waits_empty : (s : Shared) → pass fun2 s ≡ none → s.q ≡ []
unfolding pass fun2_pass
waits_empty s e = elim (pop_cases s.q) [
  | inl (is_empty, _) ↦ is_empty
  | inr (rest, y, pops, r) ↦
      let some_left : some (record s { q = rest; printed = s.printed ++ y ∷ [] }) ≡ none =
        rw (pops, pass, fun2_pass) at e in
      cc
]

-- In any interleaving of the two threads, what was printed, and then what is in the deque from its
-- back on, are the numbers from 0 to the counter in their order; the thread that takes numbers
-- waits only when all of them were printed.
pub numbers_in_order :
    (ps : List Pass) (s : Shared)
    → passes ps empty ≡ some s
    → (s.printed ++ reversed s.q ≡ numbers_below s.count)
      × (pass fun2 s ≡ none → s.printed ≡ numbers_below s.count)
numbers_in_order ps s e =
    let ok = passes-IsOrdered ps empty s refl e in
    (ok, λ waits. sym (append-nil s.printed) ∙ (rw (waits_empty s waits) at ok))
