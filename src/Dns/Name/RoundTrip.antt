-- ===== src/Dns/Name/RoundTrip.antt =====
-- network/dns/async_dns_client.cpp: dns_parse_name reads back what RFC 1035 encodes.
use cpp_example.Common.{
  ℕ, zero, suc, ◌+◌, ◌≤◌, ◌<◌, ◌≡◌, refl, ap, ◌∙◌, ◌==◌, List, [], ◌∷◌, ◌++◌, append_assoc,
  append-nil, length, length-append, drop, All, arith, le→leb, if◌then◌else◌,
}
use cpp_example.Common.Outcome.{done}
use cpp_example.Dns.Name.{put, dns_parse_name}
use cpp_example.Dns.Name.Encode.{
  encode_labels, join_dots, IsLabel, nonzero, is_pointer_small, byte_at-drop, read_at-drop,
  drop-suc, drop-add,
}

put_lem :
    (out bytes : List ℕ) → length out + length bytes ≤ 128 → put out bytes ≡ done (out ++ bytes)
unfolding put
put_lem out bytes h = rw (le→leb _ _ h)

-- One round of the loop over a plain label.
label_step :
    (fuel : ℕ) (chunk : List ℕ) (p : ℕ) (l : List ℕ) (next : ℕ) (rest out out2 : List ℕ)
    → drop p chunk ≡ length l ∷ (l ++ (next ∷ rest))
    → IsLabel l
    → length out + length l ≤ 128
    → (if next == 0 then done (out ++ l) else put (out ++ l) (b'.' ∷ [])) ≡ done out2
    → dns_parse_name (suc fuel) chunk p out ≡ dns_parse_name fuel chunk (p + 1 + length l) out2
unfolding dns_parse_name
label_step fuel chunk p l next rest out out2 at good room e =
    let at1 : drop (p + 1) chunk ≡ l ++ (next ∷ rest) = drop-suc chunk p (length l) _ at in
    let at2 : drop (p + 1 + length l) chunk ≡ next ∷ rest =
      drop-add chunk (p + 1) (length l) l _ at1 refl in
    ground (
      arith,
      byte_at-drop chunk p (length l) _ at,
      nonzero (length l) good.nonempty,
      is_pointer_small (length l) good.short,
      read_at-drop chunk (p + 1) (length l) l _ at1 refl,
      put_lem out l room,
      byte_at-drop chunk (p + 1 + length l) next rest at2,
      e,
    )

parse_end :
    (fuel : ℕ) (chunk : List ℕ) (p : ℕ) (rest out : List ℕ)
    → drop p chunk ≡ 0 ∷ rest
    → dns_parse_name (suc fuel) chunk p out ≡ done out
unfolding dns_parse_name
parse_end fuel chunk p rest out at = rw (byte_at-drop chunk p 0 rest at) refl

-- A name written as labels of 1 to 63 bytes and a zero at `p` is read whole, its labels joined by
-- dots behind what `out` held, if that is at most 128 bytes and the fuel exceeds the labels.
pub dns_parse_name-encode :
    (fuel : ℕ) (chunk : List ℕ) (p : ℕ) (ls : List (List ℕ)) (rest out : List ℕ)
    → drop p chunk ≡ encode_labels ls ++ (0 ∷ rest)
    → All IsLabel ls
    → length out + length (join_dots ls) ≤ 128
    → length ls < fuel
    → dns_parse_name fuel chunk p out ≡ done (out ++ join_dots ls)
dns_parse_name-encode zero chunk p ls rest out at good room h = absurd (omega arith)
dns_parse_name-encode (suc fuel) chunk p [] rest out at good room h =
    rw (append-nil out) (parse_end fuel chunk p rest out at)
dns_parse_name-encode (suc zero) chunk p (l ∷ []) rest out at good room h = absurd (omega arith)
dns_parse_name-encode (suc (suc fuel)) chunk p (l ∷ []) rest out at good room h =
    label_step (suc fuel) chunk p l 0 rest out (out ++ l) at1 good.0 room refl
    ∙ parse_end fuel chunk (p + 1 + length l) rest (out ++ l) at2
  where
    at1 : drop p chunk ≡ length l ∷ (l ++ (0 ∷ rest))
    at1 = at ∙ ap (λ t. length l ∷ t) (ap (λ t. t ++ (0 ∷ rest)) (append-nil l))

    at2 : drop (p + 1 + length l) chunk ≡ 0 ∷ rest
    at2 = drop-add chunk (p + 1) (length l) l _ (drop-suc chunk p (length l) _ at1) refl
dns_parse_name-encode (suc fuel) chunk p (l ∷ m ∷ ls) rest out at good room h =
    label_step fuel chunk p l (length m) tail out (out ++ l ++ b'.' ∷ []) at1 good.0
      (omega (arith, length-append l (b'.' ∷ join_dots (m ∷ ls)))) dot
    ∙ dns_parse_name-encode fuel chunk (p + 1 + length l) (m ∷ ls) rest (out ++ l ++ b'.' ∷ []) at2
        good.1
        (omega (
          arith,
          length-append l (b'.' ∷ join_dots (m ∷ ls)),
          length-append out l,
          length-append (out ++ l) (b'.' ∷ []),
        ))
        (omega arith)
    ∙ ap done regroup
  where
    tail : List ℕ
    tail = (m ++ encode_labels ls) ++ (0 ∷ rest)

    at1 : drop p chunk ≡ length l ∷ (l ++ (length m ∷ tail))
    at1 = at ∙ ap (λ t. length l ∷ t) (append_assoc l (encode_labels (m ∷ ls)) (0 ∷ rest))

    at2 : drop (p + 1 + length l) chunk ≡ length m ∷ tail
    at2 = drop-add chunk (p + 1) (length l) l _ (drop-suc chunk p (length l) _ at1) refl

    dot :
        (if length m == 0 then done (out ++ l) else put (out ++ l) (b'.' ∷ []))
        ≡ done (out ++ l ++ b'.' ∷ [])
    dot = rw (nonzero (length m) good.1.0.nonempty) (
        put_lem (out ++ l) (b'.' ∷ [])
          (omega (arith, length-append l (b'.' ∷ join_dots (m ∷ ls)), length-append out l)))

    regroup :
        (out ++ l ++ b'.' ∷ []) ++ join_dots (m ∷ ls) ≡ out ++ (l ++ (b'.' ∷ join_dots (m ∷ ls)))
    regroup =
        append_assoc (out ++ l) (b'.' ∷ []) (join_dots (m ∷ ls))
        ∙ append_assoc out l (b'.' ∷ join_dots (m ∷ ls))
