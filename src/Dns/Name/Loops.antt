-- ===== src/Dns/Name/Loops.antt =====
-- network/dns/async_dns_client.cpp: the two loops over names, which ends and which need not.
use cpp_example.Common.{
  ℕ, zero, suc, ◌+◌, ◌≤◌, ◌<◌, ◌≡◌, ◌≢◌, refl, ap, ◌∙◌, ◌==◌, true, false, List, [], ◌∷◌, ◌++◌,
  append_assoc, length, length-append, drop, All, arith, ◌⊎◌, inl, inr, Bool-cases,
}
use cpp_example.Common.Outcome.{done, overrun, diverged, byte_at}
use cpp_example.Dns.Name.{is_pointer, dns_parse_name, skip_name}
use cpp_example.Dns.Name.Encode.{encode_labels, IsLabel, nonzero, byte_at-drop, drop-add}

zero_is_no_pointer : is_pointer 0 ≡ false
unfolding is_pointer
zero_is_no_pointer = refl

pub pointer_nonzero : (flag : ℕ) → is_pointer flag ≡ true → (flag == 0) ≡ false
pointer_nonzero zero h = ground (arith, zero_is_no_pointer)
pointer_nonzero (suc n) h = ground arith

-- A pointer is followed to the byte behind it; the low six bits of the first byte are dropped.
pub follow_pointer :
    (fuel : ℕ) (chunk : List ℕ) (p flag n : ℕ) (out : List ℕ)
    → byte_at chunk p ≡ done flag
    → is_pointer flag ≡ true
    → byte_at chunk (p + 1) ≡ done n
    → dns_parse_name (suc fuel) chunk p out ≡ dns_parse_name fuel chunk n out
unfolding dns_parse_name
follow_pointer fuel chunk p flag n out at point behind =
    ground (arith, at, point, behind, pointer_nonzero flag point)

-- If a compression pointer points to itself, dns_parse_name does not end: with every fuel the
-- fuel runs out.
pub dns_parse_name-self_pointer :
    (fuel : ℕ) (chunk : List ℕ) (p flag : ℕ) (out : List ℕ)
    → byte_at chunk p ≡ done flag
    → is_pointer flag ≡ true
    → byte_at chunk (p + 1) ≡ done p
    → dns_parse_name fuel chunk p out ≡ diverged
unfolding dns_parse_name
dns_parse_name-self_pointer zero chunk p flag out at point behind = refl
dns_parse_name-self_pointer (suc fuel) chunk p flag out at point behind =
    follow_pointer fuel chunk p flag p out at point behind
    ∙ dns_parse_name-self_pointer fuel chunk p flag out at point behind

skip_step :
    (fuel : ℕ) (chunk : List ℕ) (p flag : ℕ)
    → byte_at chunk p ≡ done flag
    → (flag == 0) ≡ false
    → skip_name (suc fuel) chunk p ≡ skip_name fuel chunk (p + (flag + 1))
unfolding skip_name
skip_step fuel chunk p flag at more = ground (arith, at, more)

-- A byte is read inside the buffer, or the read is an overrun.
pub byte_at-cases :
    (buf : List ℕ) (p : ℕ)
    → (byte_at buf p ≡ overrun) ⊎ ((x : ℕ) × (byte_at buf p ≡ done x) × (p < length buf))
unfolding byte_at
byte_at-cases [] zero = inl refl
byte_at-cases [] (suc p) = inl refl
byte_at-cases (x ∷ xs) zero = inr (x, refl, omega arith)
byte_at-cases (x ∷ xs) (suc p) = elim (byte_at-cases xs p) [
  | inl e ↦ inl e
  | inr (y, e, h) ↦ inr (y, e, omega arith)
]

-- The loop that skips a query name ends on every buffer: fuel for the bytes left suffices.
pub skip_name_terminates :
    (fuel : ℕ) (chunk : List ℕ) (p : ℕ)
    → length chunk ≤ fuel + p
    → skip_name (suc fuel) chunk p ≢ diverged
unfolding skip_name
skip_name_terminates zero chunk p h = elim (byte_at-cases chunk p) [
  | inl e ↦ ground (arith, e)
  | inr (x, e, lt) ↦ absurd (omega arith)
]
skip_name_terminates (suc fuel) chunk p h = elim (byte_at-cases chunk p) [
  | inl e ↦ ground (arith, e)
  | inr (x, e, lt) ↦ elim (Bool-cases (x == 0)) [
    | inl z ↦ ground (arith, e, z)
    | inr more ↦
        rw (skip_step (suc fuel) chunk p x e more)
          (skip_name_terminates fuel chunk (p + (x + 1)) (omega arith))
  ]
]

-- A name written as labels of 1 to 63 bytes and a zero is skipped, with the zero, if the fuel
-- exceeds the labels.
pub skip_name-encode :
    (fuel : ℕ) (chunk : List ℕ) (p : ℕ) (ls : List (List ℕ)) (rest : List ℕ)
    → drop p chunk ≡ encode_labels ls ++ (0 ∷ rest)
    → All IsLabel ls
    → length ls < fuel
    → skip_name fuel chunk p ≡ done (p + length (encode_labels ls) + 1)
unfolding skip_name
skip_name-encode zero chunk p ls rest at good h = absurd (omega arith)
skip_name-encode (suc fuel) chunk p [] rest at good h =
    ground (arith, byte_at-drop chunk p 0 rest at)
skip_name-encode (suc fuel) chunk p (l ∷ ls) rest at good h =
    skip_step fuel chunk p (length l) (byte_at-drop chunk p (length l) _ at)
      (nonzero (length l) good.0.nonempty)
    ∙ skip_name-encode fuel chunk (p + (length l + 1)) ls rest at2 good.1 (omega arith)
    ∙ ap done (omega (arith, length-append l (encode_labels ls)))
  where
    at1 : drop p chunk ≡ (length l ∷ l) ++ (encode_labels ls ++ (0 ∷ rest))
    at1 = at ∙ ap (λ t. length l ∷ t) (append_assoc l (encode_labels ls) (0 ∷ rest))

    at2 : drop (p + (length l + 1)) chunk ≡ encode_labels ls ++ (0 ∷ rest)
    at2 = drop-add chunk p (length l + 1) (length l ∷ l) _ at1 (omega arith)
