-- ===== src/Dns/Response/Correct.antt =====
-- network/dns/async_dns_client.cpp: the parser returns what the server wrote.
use cpp_example.Common.{
  ℕ, zero, suc, ◌+◌, ◌≤◌, ◌<◌, ◌≡◌, refl, sym, ap, ◌∙◌, true, List, [], ◌∷◌, ◌++◌, append_assoc,
  append-nil, length, length-append, drop, drop-drop, All, arith, lt→ltb, ◌*◌, ◌/◌, ◌%◌, some,
}
use cpp_example.Common.Outcome.{c_string, done}
use cpp_example.Dns.Name.{is_pointer, dns_parse_name}
use cpp_example.Dns.Name.Encode.{
  encode_labels, join_dots, IsLabel, nonzero, byte_at-drop, read_at-drop, drop-suc, drop-add,
}
use cpp_example.Dns.Name.RoundTrip.{dns_parse_name-encode}
use cpp_example.Dns.Name.Loops.{follow_pointer, skip_name-encode}
use cpp_example.Dns.Response.{
  Cursor, name_string, skip_queries, parse_answer, parse_answers, dns_parse_response,
}
use cpp_example.Dns.Response.Encode.{
  Ttl, Ip, Answer, address, alias, alias_size, record_head, ip_bytes, encode_answers,
  encode_response, items_of, printed_of, u16_at-add,
}

pointer_byte : is_pointer 0xC0 ≡ true
unfolding is_pointer
pointer_byte = refl

-- A string without zero bytes is its own C string.
c_string_lem : (s : List ℕ) → All (λ c. 0 < c) s → c_string s ≡ s
c_string_lem [] h = refl
c_string_lem (c ∷ cs) h = rw (nonzero c h.0) (ap (λ t. c ∷ t) (c_string_lem cs h.1))

name_string_lem : (s : List ℕ) → All (λ c. 0 < c) s → length s < 128 → name_string s ≡ done s
unfolding name_string
name_string_lem s pos short = rw (c_string_lem s pos, lt→ltb _ _ short) refl

-- What a list of answers must satisfy: targets of aliases that fit, in a field of 16 bits.
abbrev pub Fits : ℕ → Answer → Type 0
Fits fuel (address t a) = Unit {0}
Fits fuel (alias t target) =
    All IsLabel target × (length (join_dots target) ≤ 128) × (length target < fuel)

-- The cursor after a list of answers.
abbrev after_answers : (List ℕ → List ℕ) → List ℕ → Cursor → List Answer → Cursor
after_answers inet_ntop name s [] = s
after_answers inet_ntop name s (address t a ∷ rs) =
    after_answers inet_ntop name
      (record {
        ptr = s.ptr + 12 + 4;
        items = s.items ++ record { domain = name; ip = c_string (inet_ntop (ip_bytes a)) } ∷ [];
        printed =
            s.printed
            ++ record { minutes = (t.t0 * 256 + t.t1) / 60; seconds = (t.t0 * 256 + t.t1) % 60 }
              ∷ [];
      })
      rs
after_answers inet_ntop name s (alias t target ∷ rs) =
    after_answers inet_ntop name (record s { ptr = s.ptr + 12 + alias_size target }) rs

after_answers-items :
    (inet_ntop : List ℕ → List ℕ) (name : List ℕ) (rs : List Answer) (s : Cursor)
    → ((after_answers inet_ntop name s rs).items
        ≡ s.items ++ items_of (λ ip. c_string (inet_ntop ip)) name rs)
      × ((after_answers inet_ntop name s rs).printed ≡ s.printed ++ printed_of rs)
after_answers-items inet_ntop name [] s = (sym (append-nil s.items), sym (append-nil s.printed))
after_answers-items inet_ntop name (address t a ∷ rs) s =
    let (i, p) = after_answers-items inet_ntop name rs _ in
    (i ∙ append_assoc s.items _ _, p ∙ append_assoc s.printed _ _)
after_answers-items inet_ntop name (alias t target ∷ rs) s = after_answers-items inet_ntop name rs _

module _ (inet_ntop : List ℕ → List ℕ) (fuel : ℕ) (chunk name : List ℕ)
    (pos : All (λ c. 0 < c) name) (short : length name < 128)
    (points : (q : ℕ) (rest : List ℕ)
      → drop q chunk ≡ 0xC0 ∷ 12 ∷ rest
      → dns_parse_name fuel chunk q [] ≡ done name) where
  parse_address :
      (s : Cursor) (t : Ttl) (a : Ip) (rest : List ℕ)
      → drop s.ptr chunk ≡ record_head 1 t 4 (ip_bytes a ++ rest)
      → parse_answer inet_ntop fuel chunk s
        ≡ done (record {
          ptr = s.ptr + 12 + 4;
          items = s.items ++ record { domain = name; ip = c_string (inet_ntop (ip_bytes a)) } ∷ [];
          printed =
              s.printed
              ++ record { minutes = (t.t0 * 256 + t.t1) / 60; seconds = (t.t0 * 256 + t.t1) % 60 }
                ∷ [];
        })
  unfolding parse_answer
  parse_address s t a rest at = ground (
    arith,
    points s.ptr _ at,
    u16_at-add chunk s.ptr 2 0 1 _ _ at refl,
    u16_at-add chunk s.ptr 4 0 1 _ _ at refl,
    u16_at-add chunk s.ptr 6 t.t0 t.t1 _ _ at refl,
    u16_at-add chunk s.ptr 10 0 4 _ _ at refl,
    read_at-drop chunk (s.ptr + 12) 4 (ip_bytes a) rest
        (sym (drop-drop s.ptr 12 chunk) ∙ ap (drop 12) at) refl,
    name_string_lem name pos short,
  )

  parse_alias :
      (s : Cursor) (t : Ttl) (target : List (List ℕ)) (rest : List ℕ)
      → Fits fuel (alias t target)
      → drop s.ptr chunk ≡ record_head 5 t (alias_size target) (encode_labels target ++ (0 ∷ rest))
      → parse_answer inet_ntop fuel chunk s
        ≡ done (record s { ptr = s.ptr + 12 + alias_size target })
  unfolding parse_answer
  parse_alias s t target rest fits at = ground (
    arith,
    points s.ptr _ at,
    u16_at-add chunk s.ptr 2 0 5 _ _ at refl,
    u16_at-add chunk s.ptr 4 0 1 _ _ at refl,
    u16_at-add chunk s.ptr 6 t.t0 t.t1 _ _ at refl,
    u16_at-add chunk s.ptr 10 (alias_size target / 256) (alias_size target % 256) _ _ at refl,
    dns_parse_name-encode fuel chunk (s.ptr + 12) target rest []
        (sym (drop-drop s.ptr 12 chunk) ∙ ap (drop 12) at) fits.0 (omega (arith, fits.1)) fits.2,
  )

  behind :
      (p : ℕ) (t : Ttl) (target : List (List ℕ)) (rest : List ℕ)
      → drop p chunk ≡ record_head 5 t (alias_size target) (encode_labels target ++ (0 ∷ rest))
      → drop (p + 12 + alias_size target) chunk ≡ rest
  behind p t target rest at =
      drop-add chunk (p + 12) (alias_size target) (encode_labels target ++ 0 ∷ []) rest
        (sym (drop-drop p 12 chunk)
          ∙ ap (drop 12) at
          ∙ sym (append_assoc (encode_labels target) (0 ∷ []) rest))
        (sym (length-append (encode_labels target) (0 ∷ [])))

  parse_answers_lem :
      (rs : List Answer) (s : Cursor) (rest : List ℕ)
      → All (Fits fuel) rs
      → drop s.ptr chunk ≡ encode_answers rs rest
      → parse_answers inet_ntop fuel chunk (length rs) s ≡ done (after_answers inet_ntop name s rs)
  unfolding parse_answers
  parse_answers_lem [] s rest fits at = refl
  parse_answers_lem (address t a ∷ rs) s rest fits at =
      rw (parse_address s t a (encode_answers rs rest) at) (
        parse_answers_lem rs _ rest fits.1
          (sym (drop-drop s.ptr 16 chunk ∙ ap (λ k. drop k chunk) (omega arith)) ∙ ap (drop 16) at))
  parse_answers_lem (alias t target ∷ rs) s rest fits at =
      rw (parse_alias s t target (encode_answers rs rest) fits.0 at)
        (parse_answers_lem rs _ rest fits.1 (behind s.ptr t target (encode_answers rs rest) at))

-- A pointer to a plain name reads that name.
pub pointed_name :
    (fuel : ℕ) (chunk : List ℕ) (q p : ℕ) (ls : List (List ℕ)) (rest more : List ℕ)
    → drop q chunk ≡ 0xC0 ∷ p ∷ more
    → All IsLabel ls
    → drop p chunk ≡ encode_labels ls ++ (0 ∷ rest)
    → length ls + 1 < fuel
    → length (join_dots ls) ≤ 128
    → dns_parse_name fuel chunk q [] ≡ done (join_dots ls)
pointed_name zero chunk q p ls rest more at good name h room = absurd (omega arith)
pointed_name (suc fuel) chunk q p ls rest more at good name h room =
    follow_pointer fuel chunk q 0xC0 p [] (byte_at-drop chunk q 0xC0 _ at) pointer_byte
      (byte_at-drop chunk (q + 1) p more (drop-suc chunk q 0xC0 _ at))
    ∙ dns_parse_name-encode fuel chunk p ls rest [] name good (omega arith) (omega arith)

-- What a server writes with encode_response is parsed to the items it holds: one for each address
-- record, in order, under the name that was asked for, and with the address as inet_ntop prints
-- it; alias records are passed over. The name must have labels of 1 to 63 bytes, none zero, and
-- fewer than 128 characters; the fuel must exceed its labels by two; there are fewer than 65536
-- records; and the target of an alias has such labels, at most 128 characters, and fewer labels
-- than fuel. calloc gives memory. Printed are, for each address, minutes
-- and seconds of the upper half of its ttl.
pub dns_parse_response-encode :
    (inet_ntop : List ℕ → List ℕ) (fuel id flags : ℕ) (question : List (List ℕ)) (rs : List Answer)
    (rest : List ℕ)
    → All IsLabel question
    → All (λ c. 0 < c) (join_dots question)
    → length (join_dots question) < 128
    → length question + 1 < fuel
    → length rs < 65536
    → All (Fits fuel) rs
    → (s : Cursor) × (dns_parse_response inet_ntop fuel
          (encode_response id flags question rs rest)
          true
        ≡ done (some s))
      × (s.items ≡ items_of (λ ip. c_string (inet_ntop ip)) (join_dots question) rs)
      × (s.printed ≡ printed_of rs)
unfolding dns_parse_response skip_queries
dns_parse_response-encode inet_ntop fuel id flags question rs rest good pos short enough few fits =
    (
      after_answers inet_ntop name start rs,
      parsed,
      (after_answers-items inet_ntop name rs start).0,
      (after_answers-items inet_ntop name rs start).1,
    )
  where
    name : List ℕ
    name = join_dots question

    chunk : List ℕ
    chunk = encode_response id flags question rs rest

    points :
        (q : ℕ) (more : List ℕ)
        → drop q chunk ≡ 0xC0 ∷ 12 ∷ more
        → dns_parse_name fuel chunk q [] ≡ done name
    points q more at =
        pointed_name fuel chunk q 12 question _ more at good refl enough (omega arith)

    start : Cursor
    start = record { ptr = 12 + length (encode_labels question) + 1 + 4; items = []; printed = [] }

    body : List ℕ
    body = encode_labels question ++ (0 ∷ 0 ∷ 1 ∷ 0 ∷ 1 ∷ encode_answers rs rest)

    at_answers : drop (12 + length (encode_labels question) + 1 + 4) chunk ≡ encode_answers rs rest
    at_answers =
        drop-add chunk (12 + length (encode_labels question) + 1) 4 (0 ∷ 1 ∷ 0 ∷ 1 ∷ []) _
          (drop-suc chunk (12 + length (encode_labels question)) 0 _ (
            drop-add chunk 12 (length (encode_labels question)) (encode_labels question) _ refl
              refl))
          refl

    parsed :
        dns_parse_response inet_ntop fuel chunk true
        ≡ done (some (after_answers inet_ntop name start rs))
    parsed = ground (
      arith,
      u16_at-add chunk 0 4 0 1 _ _ refl refl,
      u16_at-add chunk 0 6 (length rs / 256) (length rs % 256) _ _ refl refl,
      skip_name-encode fuel chunk 12 question _ refl good (omega arith),
      parse_answers_lem inet_ntop fuel chunk name pos short points rs start rest fits at_answers,
    )
