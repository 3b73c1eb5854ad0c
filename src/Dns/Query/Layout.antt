-- ===== src/Dns/Query/Layout.antt =====
-- network/dns/async_dns_client.cpp: what dns_create_question writes, and where.
use cpp_example.Common.{
  ℕ, suc, ◌+◌, ◌≤◌, ◌<◌, ◌≡◌, ◌≢◌, refl, sym, ap, ◌∙◌, ◌==◌, false, List, [], ◌∷◌, ◌++◌,
  append_assoc, append-nil, length, length-append, drop, take, ◌%◌, All, arith, length-drop, inl,
  inr, Bool-cases, some, length-take_le, take-append-drop,
}
use cpp_example.Common.Outcome.{done}
use cpp_example.Common.Buffers.{write_at-append}
use cpp_example.Dns.Name.Encode.{encode_labels, join_dots, IsLabel}
use cpp_example.Dns.Query.{Question, htons, emit, tokens, fill_qname, dns_create_question}

-- The tokens with a length byte before each, as the loop writes them.
abbrev pub encode_tokens : List (List ℕ) → List ℕ
encode_tokens [] = []
encode_tokens (t ∷ ts) = length t % 256 ∷ t ++ encode_tokens ts

-- The bytes written, with the last terminator.
abbrev pub size : List (List ℕ) → ℕ
size [] = 1
size (t ∷ ts) = length t + 1 + size ts

size_pos : (ts : List (List ℕ)) → 1 ≤ size ts
size_pos [] = omega arith
size_pos (t ∷ ts) = omega (arith, size_pos ts)

-- What the loop leaves behind the tokens of a buffer that began as `tail`.
abbrev pub tail_after : List ℕ → List (List ℕ) → List ℕ
tail_after tail [] = tail
tail_after tail (t ∷ ts) = tail_after (0 ∷ drop (length t + 2) tail) ts

pub fill_qname_lem :
    (ts : List (List ℕ)) (pre tail : List ℕ)
    → size ts ≤ length tail
    → fill_qname (pre ++ tail) (length pre) ts
      ≡ done (pre ++ (encode_tokens ts ++ tail_after tail ts))
unfolding fill_qname
fill_qname_lem [] pre tail h = refl
fill_qname_lem (t ∷ ts) pre [] h = absurd (omega arith)
fill_qname_lem (t ∷ ts) pre (x ∷ tail) h =
    rw (write_at-append (pre ++ x ∷ tail) pre (x ∷ []) tail (n ∷ []) (length pre) refl refl refl) (
      rw
        (write_at-append (pre ++ (n ∷ tail)) (pre ++ n ∷ []) (take (length t + 1) tail) rest
          (t ++ 0 ∷ []) (length pre + 1) split (omega (arith, length-append pre (n ∷ []))) same)
        (ap (λ b. fill_qname b (length pre + 1 + length t) ts) regroup
          ∙ ap (λ k. fill_qname (pre2 ++ (0 ∷ rest)) k ts)
              (omega (arith, length-append pre (n ∷ []), length-append (pre ++ n ∷ []) t))
          ∙ fill_qname_lem ts pre2 (0 ∷ rest) (omega (arith, length-drop (length t + 1) tail))
          ∙ final))
  where
    n : ℕ
    n = length t % 256

    rest : List ℕ
    rest = drop (length t + 1) tail

    pre2 : List ℕ
    pre2 = (pre ++ n ∷ []) ++ t

    split : pre ++ (n ∷ tail) ≡ (pre ++ n ∷ []) ++ (take (length t + 1) tail ++ rest)
    split = rw (take-append-drop (length t + 1) tail) (sym (append_assoc pre (n ∷ []) tail))

    same : length (take (length t + 1) tail) ≡ length (t ++ 0 ∷ [])
    same = omega (arith, length-take_le (length t + 1) tail, length-append t (0 ∷ []), size_pos ts)

    regroup : (pre ++ n ∷ []) ++ ((t ++ 0 ∷ []) ++ rest) ≡ pre2 ++ (0 ∷ rest)
    regroup = simp append_assoc

    final :
        done (pre2 ++ (encode_tokens ts ++ tail_after (0 ∷ rest) ts))
        ≡ done (pre ++ (encode_tokens (t ∷ ts) ++ tail_after (x ∷ tail) (t ∷ ts)))
    final =
        let e : length t + 2 ≡ suc (length t + 1) = omega arith in
        rw e (ap done (simp append_assoc))

length-tail_after :
    (ts : List (List ℕ)) (tail : List ℕ)
    → size ts ≤ length tail
    → length (encode_tokens ts ++ tail_after tail ts) ≡ length tail
length-tail_after [] tail h = refl
length-tail_after (t ∷ ts) tail h = omega (
  arith,
  length-tail_after ts (0 ∷ drop (length t + 2) tail),
  length-drop (length t + 2) tail,
  size_pos ts,
  length-append (t ++ encode_tokens ts) (tail_after (0 ∷ drop (length t + 2) tail) ts),
  length-append t (encode_tokens ts),
  length-append (encode_tokens ts) (tail_after (0 ∷ drop (length t + 2) tail) ts),
)

size-emit : (cur : List ℕ) (ts : List (List ℕ)) → size (emit cur ts) ≤ length cur + 1 + size ts
size-emit [] ts = omega arith
size-emit (c ∷ cs) ts = omega arith

-- The tokens of a name take at most a byte more than the name, and a terminator.
size-tokens : (cur name : List ℕ) → size (tokens cur name) ≤ length cur + length name + 2
unfolding tokens
size-tokens cur [] = omega (arith, size-emit cur [])
size-tokens cur (c ∷ cs) = elim (Bool-cases (c == b'.')) [
  | inl e ↦ rw (e, tokens) (omega (arith, size-emit cur (tokens [] cs), size-tokens [] cs))
  | inr e ↦
      rw (e, tokens) (omega (arith, size-tokens (cur ++ c ∷ []) cs, length-append cur (c ∷ [])))
]

-- Whatever the host name and whatever malloc returned, the loop writes inside the buffer of
-- strlen(hostname) + 2 bytes: the question is built, its length is that of its buffer, and type
-- and class are 1 in network order.
pub dns_create_question_safe :
    (memory hostname : List ℕ)
    → length memory ≡ length hostname + 2
    → (q : Question) × (dns_create_question (some memory) hostname ≡ done (some q))
      × (length q.qname ≡ q.len)
      × (q.len ≡ length hostname + 2)
      × (q.qtype ≡ htons 1)
      × (q.qclass ≡ htons 1)
unfolding dns_create_question
dns_create_question_safe memory hostname e = (
  record {
    len = length hostname + 2;
    qtype = htons 1;
    qclass = htons 1;
    qname = encode_tokens (tokens [] hostname) ++ tail_after memory (tokens [] hostname);
  },
  rw (fill_qname_lem (tokens [] hostname) [] memory fits),
  omega (arith, length-tail_after (tokens [] hostname) memory fits),
  refl,
  refl,
  refl,
)
  where
    fits : size (tokens [] hostname) ≤ length memory
    fits = omega (arith, size-tokens [] hostname)

abbrev pub NoDots : List ℕ → Type 0
NoDots l = All (λ c. c ≢ b'.') l

not_dot : (c : ℕ) → c ≢ b'.' → (c == b'.') ≡ false
not_dot c h = ground arith

tokens-last : (cur l : List ℕ) → NoDots l → tokens cur l ≡ emit (cur ++ l) []
unfolding tokens
tokens-last cur [] h = rw (append-nil cur)
tokens-last cur (c ∷ cs) h =
    rw (not_dot c h.0, tokens)
      (tokens-last (cur ++ c ∷ []) cs h.1 ∙ ap (λ l. emit l []) (append_assoc cur (c ∷ []) cs))

tokens-dot :
    (cur l rest : List ℕ)
    → NoDots l
    → tokens cur (l ++ (b'.' ∷ rest)) ≡ emit (cur ++ l) (tokens [] rest)
unfolding tokens
tokens-dot cur [] rest h = rw (append-nil cur)
tokens-dot cur (c ∷ cs) rest h =
    rw (not_dot c h.0, tokens)
      (tokens-dot (cur ++ c ∷ []) cs rest h.1
        ∙ ap (λ l. emit l (tokens [] rest)) (append_assoc cur (c ∷ []) cs))

emit_nonempty : (l : List ℕ) (ts : List (List ℕ)) → 0 < length l → emit l ts ≡ l ∷ ts
emit_nonempty [] ts h = absurd (omega arith)
emit_nonempty (c ∷ cs) ts h = refl

-- strtok splits a joined name into its labels.
pub tokens-join_dots :
    (ls : List (List ℕ)) → All IsLabel ls → All NoDots ls → tokens [] (join_dots ls) ≡ ls
tokens-join_dots [] good plain = unfold tokens in refl
tokens-join_dots (l ∷ []) good plain = tokens-last [] l plain.0 ∙ emit_nonempty l [] good.0.nonempty
tokens-join_dots (l ∷ m ∷ ls) good plain =
    tokens-dot [] l (join_dots (m ∷ ls)) plain.0
    ∙ emit_nonempty l _ good.0.nonempty
    ∙ ap (λ ts. l ∷ ts) (tokens-join_dots (m ∷ ls) good.1 plain.1)

encode_tokens-labels : (ls : List (List ℕ)) → All IsLabel ls → encode_tokens ls ≡ encode_labels ls
encode_tokens-labels [] good = refl
encode_tokens-labels (l ∷ ls) good =
    let e : length l % 256 ≡ length l = omega (arith, good.0.short) in
    rw (e, encode_tokens-labels ls good.1)

size-join_dots : (l : List ℕ) (ls : List (List ℕ)) → size (l ∷ ls) ≡ length (join_dots (l ∷ ls)) + 2
size-join_dots l [] = omega arith
size-join_dots l (m ∷ ls) =
    omega (arith, size-join_dots m ls, length-append l (b'.' ∷ join_dots (m ∷ ls)))

nil_of_length : (xs : List ℕ) → length xs ≡ 0 → xs ≡ []
nil_of_length [] h = refl
nil_of_length (x ∷ xs) h = absurd (omega arith)

tail_after-full :
    (t : List ℕ) (ts : List (List ℕ)) (tail : List ℕ)
    → size (t ∷ ts) ≡ length tail
    → tail_after tail (t ∷ ts) ≡ 0 ∷ []
tail_after-full t [] tail h =
    ap (λ r. 0 ∷ r) (nil_of_length _ (omega (arith, length-drop (length t + 2) tail)))
tail_after-full t (u ∷ ts) tail h =
    tail_after-full u ts (0 ∷ drop (length t + 2) tail)
      (omega (arith, length-drop (length t + 2) tail, size_pos ts))

-- A host name of labels, 1 to 63 bytes each and without dots, and memory of its length and two
-- bytes give the question that RFC 1035 asks for: each label
-- behind its length, and the zero of the root, which together fill the buffer.
pub dns_create_question-labels :
    (memory l : List ℕ) (ls : List (List ℕ))
    → All IsLabel (l ∷ ls)
    → All NoDots (l ∷ ls)
    → length memory ≡ length (join_dots (l ∷ ls)) + 2
    → dns_create_question (some memory) (join_dots (l ∷ ls))
      ≡ done (
          some (record {
            len = length (join_dots (l ∷ ls)) + 2;
            qtype = htons 1;
            qclass = htons 1;
            qname = encode_labels (l ∷ ls) ++ 0 ∷ [];
          }))
unfolding dns_create_question
dns_create_question-labels memory l ls good plain e = rw (tokens-join_dots (l ∷ ls) good plain) (
    rw (fill_qname_lem (l ∷ ls) [] memory (omega (arith, size-join_dots l ls)))
      (ap (λ b. done (some (question b))) bytes))
  where
    question : List ℕ → Question
    question b = record {
      len = length (join_dots (l ∷ ls)) + 2;
      qtype = htons 1;
      qclass = htons 1;
      qname = b;
    }

    bytes : encode_tokens (l ∷ ls) ++ tail_after memory (l ∷ ls) ≡ encode_labels (l ∷ ls) ++ 0 ∷ []
    bytes =
        ap (λ b. b ++ tail_after memory (l ∷ ls)) (encode_tokens-labels (l ∷ ls) good)
        ∙ ap (λ b. encode_labels (l ∷ ls) ++ b)
            (tail_after-full l ls memory (omega (arith, size-join_dots l ls)))
