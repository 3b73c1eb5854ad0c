-- ===== src/Dns/Query/Request.antt =====
-- network/dns/async_dns_client.cpp: the datagram that a commit sends.
use cpp_example.Common.{
  ℕ, ◌+◌, ◌-◌, ◌≤◌, ◌<◌, ◌≡◌, refl, sym, ap, ◌∙◌, List, [], ◌∷◌, ◌++◌, append_assoc, length,
  length-append, take, ◌%◌, ◌/◌, ◌^◌, All, arith, inl, inr, some, length-replicate, replicate-add,
  take-append_length,
}
use cpp_example.Common.Outcome.{done, overrun}
use cpp_example.Common.Buffers.{write_at-append, write_at-cases, write_at-overrun, read_at-all}
use cpp_example.Dns.Name.Encode.{encode_labels, join_dots, IsLabel}
use cpp_example.Dns.Query.{
  Header, zeros, Question, htons, short_bytes, header_bytes, dns_create_header, dns_build_request,
  dns_request,
}
use cpp_example.Dns.Query.Layout.{NoDots, dns_create_question_safe, dns_create_question-labels}

-- The four parts of a request of `q.len + 16` bytes, and the rest of the buffer.
build_request_parts :
    (h : Header) (q : Question) (b0 b1 b2 b3 rest request : List ℕ)
    → request ≡ b0 ++ (b1 ++ (b2 ++ (b3 ++ rest)))
    → length b0 ≡ 12
    → length b1 ≡ q.len
    → length b2 ≡ 2
    → length b3 ≡ 2
    → q.len ≡ length q.qname
    → dns_build_request h q request
      ≡ done (
        header_bytes h ++ (q.qname ++ (short_bytes q.qtype ++ (short_bytes q.qclass ++ rest))),
        q.len + 2 + 2 + 12,
      )
unfolding dns_build_request
build_request_parts h q b0 b1 b2 b3 rest request e l0 l1 l2 l3 lq =
    rw (write_at-append request [] b0 (b1 ++ (b2 ++ (b3 ++ rest))) (header_bytes h) 0 e refl l0) (
      rw (read_at-all q.qname q.len lq) (
        rw
          (write_at-append _ (header_bytes h) b1 (b2 ++ (b3 ++ rest)) q.qname 12 refl refl
            (l1 ∙ lq))
          (rw
            (write_at-append _ (header_bytes h ++ q.qname) b2 (b3 ++ rest) (short_bytes q.qtype)
              (12 + q.len) (sym (append_assoc (header_bytes h) q.qname _)) (omega (arith, lq)) l2)
            (rw
              (write_at-append _ ((header_bytes h ++ q.qname) ++ short_bytes q.qtype) b3 rest
                (short_bytes q.qclass) (12 + q.len + 2)
                (sym (append_assoc (header_bytes h ++ q.qname) (short_bytes q.qtype) _))
                (omega (arith, lq, length-append q.qname (short_bytes q.qtype))) l3)
              (ap (λ r. done (r, q.len + 2 + 2 + 12)) (simp append_assoc))))))

split_zeros :
    (n len rest : ℕ)
    → n ≡ 12 + (len + (2 + (2 + rest)))
    → zeros n ≡ zeros 12 ++ (zeros len ++ (zeros 2 ++ (zeros 2 ++ zeros rest)))
split_zeros n len rest e =
    ap (λ k. zeros k) e
    ∙ replicate-add {A = ℕ} 12 (len + (2 + (2 + rest))) 0
    ∙ ap (λ r. zeros 12 ++ r)
        (replicate-add {A = ℕ} len (2 + (2 + rest)) 0
          ∙ ap (λ r. zeros len ++ r)
              (replicate-add {A = ℕ} 2 (2 + rest) 0
                ∙ ap (λ r. zeros 2 ++ r) (replicate-add {A = ℕ} 2 rest 0)))

length-encode_labels :
    (l : List ℕ) (ls : List (List ℕ))
    → length (encode_labels (l ∷ ls)) ≡ length (join_dots (l ∷ ls)) + 1
length-encode_labels l [] = omega (arith, length-append l [])
length-encode_labels l (m ∷ ls) = omega (
  arith,
  length-encode_labels m ls,
  length-append l (encode_labels (m ∷ ls)),
  length-append l (b'.' ∷ join_dots (m ∷ ls)),
)

take-append-rest : (xs ys : List ℕ) (n : ℕ) → n ≡ length xs → take n (xs ++ ys) ≡ xs
take-append-rest xs ys n e = rw e (take-append_length xs ys)

-- For a host name of labels of 1 to 63 bytes without dots, at most 1006 bytes in all, with memory
-- for the question, the datagram is: the id in the order of the host, flags 0, one question, no
-- records, the encoded name, type and class 1.
pub dns_request-labels :
    (random : ℕ) (memory l : List ℕ) (ls : List (List ℕ))
    → All IsLabel (l ∷ ls)
    → All NoDots (l ∷ ls)
    → length memory ≡ length (join_dots (l ∷ ls)) + 2
    → length (join_dots (l ∷ ls)) ≤ 1006
    → dns_request random (some memory) (join_dots (l ∷ ls))
      ≡ done (
          random % 2 ^ 16 % 256
          ∷ random % 2 ^ 16 / 256 % 256
          ∷ 0
          ∷ 0
          ∷ 0
          ∷ 1
          ∷ 0
          ∷ 0
          ∷ 0
          ∷ 0
          ∷ 0
          ∷ 0
          ∷ (encode_labels (l ∷ ls) ++ (0 ∷ 0 ∷ 1 ∷ 0 ∷ 1 ∷ [])))
unfolding dns_request dns_create_header
dns_request-labels random memory l ls good plain e fits =
    rw (dns_create_question-labels memory l ls good plain e) (
      rw
        (build_request_parts (dns_create_header random) q (zeros 12) (zeros q.len) (zeros 2)
          (zeros 2) (zeros (1008 - q.len)) (zeros 1024)
          (split_zeros 1024 q.len (1008 - q.len) (omega (arith, fits))) refl
          (length-replicate {A = ℕ} q.len 0) refl refl whole)
        final)
  where
    q : Question
    q = record {
      len = length (join_dots (l ∷ ls)) + 2;
      qtype = htons 1;
      qclass = htons 1;
      qname = encode_labels (l ∷ ls) ++ 0 ∷ [];
    }

    whole : q.len ≡ length q.qname
    whole =
        omega (arith, length-encode_labels l ls, length-append (encode_labels (l ∷ ls)) (0 ∷ []))

    head : List ℕ
    head = header_bytes (dns_create_header random) ++ (q.qname ++ (0 ∷ 1 ∷ 0 ∷ 1 ∷ []))

    final :
        done (
          (take (q.len + 2 + 2 + 12) (
            header_bytes (dns_create_header random)
            ++ (q.qname ++ (0 ∷ 1 ∷ 0 ∷ 1 ∷ zeros (1008 - q.len))))))
        ≡ done (
            random % 2 ^ 16 % 256
            ∷ random % 2 ^ 16 / 256 % 256
            ∷ 0
            ∷ 0
            ∷ 0
            ∷ 1
            ∷ 0
            ∷ 0
            ∷ 0
            ∷ 0
            ∷ 0
            ∷ 0
            ∷ (encode_labels (l ∷ ls) ++ (0 ∷ 0 ∷ 1 ∷ 0 ∷ 1 ∷ [])))
    final =
        ap (λ b. done b)
          (ap (λ b. take (q.len + 2 + 2 + 12) b)
              (sym (
                append_assoc (header_bytes (dns_create_header random))
                  (q.qname ++ (0 ∷ 1 ∷ 0 ∷ 1 ∷ [])) (zeros (1008 - q.len))
                ∙ ap (λ b. header_bytes (dns_create_header random) ++ b)
                    (append_assoc q.qname (0 ∷ 1 ∷ 0 ∷ 1 ∷ []) (zeros (1008 - q.len)))))
            ∙ take-append-rest head (zeros (1008 - q.len)) (q.len + 2 + 2 + 12)
                (omega (arith, whole, length-append q.qname (0 ∷ 1 ∷ 0 ∷ 1 ∷ [])))
            ∙ ap (λ b. header_bytes (dns_create_header random) ++ b)
                (append_assoc (encode_labels (l ∷ ls)) (0 ∷ []) (0 ∷ 1 ∷ 0 ∷ 1 ∷ [])))

-- Four writes into a buffer of 1024 bytes, the last of which would end beyond it.
build_request_overrun :
    (h : Header) (q : Question) (request : List ℕ)
    → length request ≡ 1024
    → q.len ≡ length q.qname
    → 1008 < q.len
    → dns_build_request h q request ≡ overrun
unfolding dns_build_request
build_request_overrun h q request e l long = elim (write_at-cases request 0 (header_bytes h)) [
  | inl o ↦ rw o refl
  | inr (r1, d1, n1, _) ↦ rw d1 (
      rw (read_at-all q.qname q.len l) (elim (write_at-cases r1 12 q.qname) [
        | inl o ↦ rw o refl
        | inr (r2, d2, n2, _) ↦ rw d2 (elim (write_at-cases r2 (12 + q.len) (short_bytes q.qtype)) [
          | inl o ↦ rw o refl
          | inr (r3, d3, n3, _) ↦
              rw d3 (
                rw (write_at-overrun r3 (12 + q.len + 2) (short_bytes q.qclass) (omega arith)) refl)
        ])
      ]))
]

-- A host name of more than 1006 bytes, with memory for its question, makes the request run over its
-- buffer of 1024 bytes.
pub dns_request-overrun :
    (random : ℕ) (memory hostname : List ℕ)
    → length memory ≡ length hostname + 2
    → 1006 < length hostname
    → dns_request random (some memory) hostname ≡ overrun
unfolding dns_request
dns_request-overrun random memory hostname e long =
    let (q, built, whole, len, _, _) = dns_create_question_safe memory hostname e in
    rw built (
      rw
        (build_request_overrun (dns_create_header random) q (zeros 1024)
          (length-replicate {A = ℕ} 1024 0) (sym whole) (omega arith))
        refl)
