-- ===== src/Common/Strings.antt =====
-- C strings in front of a buffer.
use Prim.Native.Nat.{ℕ, ◌≤◌, ◌<◌}
use mathlib.Core.Path.{◌≡◌, refl, ap, sym, ◌∙◌}
use mathlib.Core.List.{List, [], ◌∷◌, ◌++◌, append_assoc}
use native.Mathlib.Omega.{arith}
use cpp_example.Common.Lists.{length, drop, length-append, take-append_length, length-drop}
use cpp_example.Common.Outcome.{done, read_at, write_at, printed_string, c_string}
use cpp_example.Common.Buffers.{
  read_at-take, write_at_front, printed_string-c_string, c_string-prefix,
}

pub front_read : (new rest : List ℕ) → read_at (new ++ rest) 0 (length new) ≡ done new
front_read new rest =
    read_at-take (new ++ rest) (length new) (omega (arith, length-append new rest))
    ∙ ap done (take-append_length new rest)

pub front_length :
    (new buf : List ℕ)
    → length new ≤ length buf
    → length (new ++ drop (length new) buf) ≡ length buf
front_length new buf h =
    omega (arith, h, length-append new (drop (length new) buf), length-drop (length new) buf)

pub string_read :
    (line rest : List ℕ) → read_at (line ++ rest) 0 (length (c_string line)) ≡ done (c_string line)
string_read line rest =
    let (more, split) = c_string-prefix line in
    ap (λ l. read_at l 0 (length (c_string line)))
      (ap (λ l. l ++ rest) split ∙ append_assoc (c_string line) more rest)
    ∙ front_read (c_string line) (more ++ rest)

pub nonempty : (xs : List ℕ) → 0 < length xs → (x : ℕ) × (rest : List ℕ) × (xs ≡ x ∷ rest)
nonempty [] h = absurd (omega arith)
nonempty (x ∷ xs) h = (x, xs, refl)

-- `strcpy(buf, text)`, strlen of the buffer, and a read of as many bytes.
pub string_written :
    (text buf : List ℕ)
    → length text < length buf
    → (rest : List ℕ) × (write_at buf 0 (text ++ 0 ∷ []) ≡ done (text ++ 0 ∷ rest))
      × (printed_string (text ++ 0 ∷ rest) ≡ done (c_string text))
      × (read_at (text ++ 0 ∷ rest) 0 (length (c_string text)) ≡ done (c_string text))
      × (length (text ++ 0 ∷ rest) ≡ length buf)
string_written text buf short =
    let room : length (text ++ 0 ∷ []) ≤ length buf =
      omega (arith, short, length-append text (0 ∷ [])) in
    let rest = drop (length (text ++ 0 ∷ [])) buf in
    (
      rest,
      write_at_front buf (text ++ 0 ∷ []) room ∙ ap done (append_assoc text (0 ∷ []) rest),
      printed_string-c_string text rest,
      string_read text (0 ∷ rest),
      ap length (sym (append_assoc text (0 ∷ []) rest)) ∙ front_length (text ++ 0 ∷ []) buf room,
    )
