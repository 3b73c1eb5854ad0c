-- ===== src/Dns/Name/Encode.antt =====
-- Names as RFC 1035 writes them, and reading them back with the parser of the clients.
use cpp_example.Common.{
  ℕ, zero, suc, ◌+◌, ◌≤◌, ◌<◌, ◌≡◌, ◌==◌, refl, sym, ap, ◌∙◌, Bool, true, false, List, [], ◌∷◌,
  ◌++◌, length, drop, drop-drop, drop-append_length, arith, if◌then◌else◌,
}
use cpp_example.Common.Outcome.{done, prefix, byte_at, read_at}
use cpp_example.Dns.Name.{is_pointer}

-- The labels of a name, without the root.
abbrev pub encode_labels : List (List ℕ) → List ℕ
encode_labels [] = []
encode_labels (l ∷ ls) = length l ∷ l ++ encode_labels ls

abbrev pub join_dots : List (List ℕ) → List ℕ
join_dots [] = []
join_dots (l ∷ []) = l
join_dots (l ∷ m ∷ ls) = l ++ (b'.' ∷ join_dots (m ∷ ls))

-- One to 63 bytes: the two top bits of a length byte are zero.
pub record IsLabel (l : List ℕ) : Type 0 where
  pub nonempty : 0 < length l
  pub short : length l ≤ 63

-- Whether no byte below the limit has both top bits.
no_pointers : ℕ → Bool
no_pointers zero = true
no_pointers (suc limit) = if is_pointer limit then false else no_pointers limit

no_pointers_lem : (limit len : ℕ) → len < limit → no_pointers limit ≡ true → is_pointer len ≡ false
unfolding no_pointers
no_pointers_lem zero len within e = absurd (omega (arith, within))
no_pointers_lem (suc limit) len within e = ground (arith, no_pointers_lem limit len)

pub is_pointer_small : (x : ℕ) → x ≤ 63 → is_pointer x ≡ false
unfolding no_pointers is_pointer
is_pointer_small x h = no_pointers_lem 64 x (omega (arith, h)) refl

pub nonzero : (n : ℕ) → 0 < n → (n == 0) ≡ false
nonzero n h = ground arith

-- What stands at a position of a buffer, as a rest of it.
pub byte_at-drop :
    (buf : List ℕ) (p x : ℕ) (rest : List ℕ) → drop p buf ≡ x ∷ rest → byte_at buf p ≡ done x
unfolding byte_at
byte_at-drop buf p x rest e = rw e

prefix-append : (xs ys : List ℕ) → prefix (length xs) (xs ++ ys) ≡ done xs
prefix-append [] ys = refl
prefix-append (x ∷ xs) ys = rw (prefix-append xs ys)

pub read_at-drop :
    (buf : List ℕ) (p n : ℕ) (xs rest : List ℕ)
    → drop p buf ≡ xs ++ rest
    → n ≡ length xs
    → read_at buf p n ≡ done xs
unfolding read_at
read_at-drop buf p n xs rest e k = rw (e, k) (prefix-append xs rest)

pub drop-suc :
    (buf : List ℕ) (p x : ℕ) (rest : List ℕ) → drop p buf ≡ x ∷ rest → drop (p + 1) buf ≡ rest
drop-suc buf p x rest e = sym (drop-drop p 1 buf) ∙ ap (drop 1) e

pub drop-add :
    (buf : List ℕ) (p n : ℕ) (xs rest : List ℕ)
    → drop p buf ≡ xs ++ rest
    → n ≡ length xs
    → drop (p + n) buf ≡ rest
drop-add buf p n xs rest e k =
    sym (drop-drop p n buf) ∙ ap (drop n) e ∙ rw k (drop-append_length xs rest)
