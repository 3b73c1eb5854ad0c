-- ===== src/Ownership/Text/Kept.antt =====
-- rvalue_reference/demo2_move_semantics.cpp: how the variables stand for values, and what each
-- member function does then.
use cpp_example.Common.{
  ℕ, ◌≡◌, ◌⊎◌, refl, sym, Option, none, some, List, [], ◌∷◌, ◌++◌, length, ◌==◌, Bool-cases, inl,
  inr,
}
use cpp_example.Common.Outcome.{done, overrun, >>=-eq-done, done_injective, read_at, printed_string}
use cpp_example.Common.Strings.{front_read}
use cpp_example.Ownership.Blocks.{Blocks, fetch, fetch_last, fetch-append}
use cpp_example.Ownership.Text.{
  World, MyString, Line, put_string, bytes_at, copy_data, duplicate, ordinary, ordinary_constructor,
  move, emptied,
}

-- A string without a zero.
abbrev pub IsText : List ℕ → Type 0
IsText s = printed_string (s ++ 0 ∷ []) ≡ done s

abbrev pub Shows : Blocks (List ℕ) → MyString → Option (List ℕ) → Type 0
Shows h x none = (x.m_data ≡ none) × (x.m_len ≡ 0)
Shows h x (some s) =
    (a : ℕ) × (x.m_data ≡ some a)
    × (x.m_len ≡ length s)
    × (fetch a h ≡ done (s ++ 0 ∷ []))
    × IsText s

-- The world after the allocation of a copy of `s` and the message of a member function.
abbrev pub grown : (List ℕ → Line) → List ℕ → World → World
grown l s w = record {
  blocks = w.blocks ++ some (s ++ 0 ∷ []) ∷ [];
  printed = w.printed ++ l s ∷ [];
}

abbrev pub told : (List ℕ → Line) → List ℕ → World → World
told l s w = record w { printed = w.printed ++ l s ∷ [] }

abbrev pub new_string : List ℕ → World → MyString
new_string s w = record { m_data = some (length w.blocks); m_len = length s }

pub read_string :
    (p s : List ℕ) → printed_string p ≡ done s → (read_at p 0 (length s) ≡ done s) × IsText s
unfolding read_at
read_string [] s e = cc
read_string (c ∷ p) s e = elim (Bool-cases (c == 0)) [
  | inl z ↦
      let empty : [] ≡ s = done_injective (rw (z, printed_string) at e) in
      rw (sym empty) (refl, refl)
  | inr nz ↦
      let (rest, reads, ends) =
        >>=-eq-done (printed_string p) (λ t. done (c ∷ t)) (rw (nz, printed_string) at e) in
      let (copied, text) = read_string p rest reads in
      rw (sym (done_injective ends)) (rw (copied, read_at) refl, rw (nz, printed_string, text) refl)
]

pub Shows-grow :
    (h t : Blocks (List ℕ)) (x : MyString) (v : Option (List ℕ)) → Shows h x v → Shows (h ++ t) x v
Shows-grow h t x none e = e
Shows-grow h t x (some s) (a, data_is, len, reads, text) =
    (a, data_is, len, fetch-append a h t reads, text)

pub new_string-Shows :
    (l : List ℕ → Line) (s : List ℕ) (w : World)
    → IsText s
    → Shows (grown l s w).blocks (new_string s w) (some s)
new_string-Shows l s w text = (length w.blocks, refl, refl, fetch_last w.blocks (s ++ 0 ∷ []), text)

module _ (w : World) (x : MyString) (l : List ℕ → Line) where
  pub put_string-Shows :
      (s : List ℕ) → Shows w.blocks x (some s) → put_string x.m_data l w ≡ done (told l s w)
  unfolding put_string
  put_string-Shows s (a, data_is, len, reads, text) = rw (data_is, put_string, reads, text) refl

  pub put_string-null : Shows w.blocks x none → put_string x.m_data l w ≡ overrun
  unfolding put_string
  put_string-null (data_is, len) = rw (data_is, put_string) refl

  pub duplicate-Shows :
      (s : List ℕ)
      → Shows w.blocks x (some s)
      → duplicate l x w ≡ done (new_string s w, grown l s w)
  unfolding duplicate bytes_at copy_data put_string
  duplicate-Shows s (a, data_is, len, reads, text) =
      let later = fetch-append a w.blocks (some (s ++ 0 ∷ []) ∷ []) reads in
      rw (data_is, len, bytes_at, reads, copy_data, front_read s (0 ∷ []), put_string, later, text)
        refl

  pub duplicate-null : Shows w.blocks x none → duplicate l x w ≡ overrun
  unfolding duplicate bytes_at copy_data put_string read_at
  duplicate-null (data_is, len) = rw (data_is, len, bytes_at, copy_data, put_string) refl

  pub move-Shows :
      (s : List ℕ) → Shows w.blocks x (some s) → move l x w ≡ done (x, emptied, told l s w)
  unfolding move
  move-Shows s h = rw (put_string-Shows s h) refl

  pub move-null : Shows w.blocks x none → move l x w ≡ overrun
  unfolding move
  move-null h = rw (put_string-null h) refl

pub ordinary_lem :
    (p s : List ℕ) (w : World)
    → printed_string p ≡ done s
    → ordinary p w ≡ done (new_string s w, grown ordinary_constructor s w)
unfolding ordinary copy_data put_string
ordinary_lem p s w e =
    let (copied, text) = read_string p s e in
    rw (e, copied, fetch_last w.blocks (s ++ 0 ∷ []), text) refl

pub string_cases :
    (p : List ℕ) → ((s : List ℕ) × (printed_string p ≡ done s)) ⊎ (printed_string p ≡ overrun)
string_cases [] = inr refl
string_cases (c ∷ p) = elim (Bool-cases (c == 0)) [
  | inl z ↦ inl ([], rw (z, printed_string) refl)
  | inr nz ↦ elim (string_cases p) [
    | inl (s, e) ↦ inl (c ∷ s, rw (nz, printed_string, e) refl)
    | inr e ↦ inr (rw (nz, printed_string, e) refl)
  ]
]

pub ordinary_overrun :
    (p : List ℕ) (w : World) → printed_string p ≡ overrun → ordinary p w ≡ overrun
unfolding ordinary
ordinary_overrun p w e = rw e refl
