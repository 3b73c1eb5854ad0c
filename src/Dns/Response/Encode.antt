-- ===== src/Dns/Response/Encode.antt =====
-- Responses as a server writes them: one question, then answers whose names point to it.
use cpp_example.Common.{
  ℕ, ◌+◌, ◌*◌, ◌/◌, ◌%◌, ◌≡◌, List, [], ◌∷◌, ◌++◌, length, drop, drop-drop, ap, sym, ◌∙◌, arith,
}
use cpp_example.Common.Outcome.{done, first, byte_at, u16_at}
use cpp_example.Dns.Name.Encode.{encode_labels, drop-suc}
use cpp_example.Dns.Response.{Item, Printed}

-- The four bytes of a time to live, most significant first.
pub record Ttl : Type 0 where
  pub t0 : ℕ
  pub t1 : ℕ
  pub t2 : ℕ
  pub t3 : ℕ

pub record Ip : Type 0 where
  pub i0 : ℕ
  pub i1 : ℕ
  pub i2 : ℕ
  pub i3 : ℕ

-- An address record, or an alias with the labels of its target.
pub data Answer : Type 0 where
  address : Ttl → Ip → Answer
  alias : Ttl → List (List ℕ) → Answer

abbrev pub alias_size : List (List ℕ) → ℕ
alias_size target = length (encode_labels target) + 1

abbrev pub record_head : ℕ → Ttl → ℕ → List ℕ → List ℕ
record_head type t size body =
    0xC0 ∷ 12 ∷ 0 ∷ type ∷ 0 ∷ 1 ∷ t.t0 ∷ t.t1 ∷ t.t2 ∷ t.t3 ∷ size / 256 ∷ size % 256 ∷ body

abbrev pub ip_bytes : Ip → List ℕ
ip_bytes a = a.i0 ∷ a.i1 ∷ a.i2 ∷ a.i3 ∷ []

abbrev pub encode_answers : List Answer → List ℕ → List ℕ
encode_answers [] rest = rest
encode_answers (address t a ∷ rs) rest = record_head 1 t 4 (ip_bytes a ++ encode_answers rs rest)
encode_answers (alias t target ∷ rs) rest =
    record_head 5 t (alias_size target) (encode_labels target ++ (0 ∷ encode_answers rs rest))

-- Two bytes of id, two of flags, one question, the number of answers, no other records.
abbrev pub encode_header : ℕ → ℕ → ℕ → List ℕ → List ℕ
encode_header id flags answers rest =
    id / 256
    ∷ id % 256
    ∷ flags / 256
    ∷ flags % 256
    ∷ 0
    ∷ 1
    ∷ answers / 256
    ∷ answers % 256
    ∷ 0
    ∷ 0
    ∷ 0
    ∷ 0
    ∷ rest

abbrev pub encode_response : ℕ → ℕ → List (List ℕ) → List Answer → List ℕ → List ℕ
encode_response id flags question rs rest =
    encode_header id flags (length rs)
      (encode_labels question ++ (0 ∷ 0 ∷ 1 ∷ 0 ∷ 1 ∷ encode_answers rs rest))

-- What the parser is to return for them: an item for each address, in order.
abbrev pub items_of : (List ℕ → List ℕ) → List ℕ → List Answer → List Item
items_of text name [] = []
items_of text name (address t a ∷ rs) =
    record { domain = name; ip = text (ip_bytes a) } ∷ items_of text name rs
items_of text name (alias t target ∷ rs) = items_of text name rs

-- What it prints of the time to live: the upper half of the field, in minutes and seconds.
abbrev pub printed_of : List Answer → List Printed
printed_of [] = []
printed_of (address t a ∷ rs) =
    record { minutes = (t.t0 * 256 + t.t1) / 60; seconds = (t.t0 * 256 + t.t1) % 60 }
    ∷ printed_of rs
printed_of (alias t target ∷ rs) = printed_of rs

-- Bytes at a fixed distance behind a position whose rest is known.
pub byte_at-add :
    (buf : List ℕ) (p k : ℕ) (xs : List ℕ)
    → drop p buf ≡ xs
    → byte_at buf (p + k) ≡ first (drop k xs)
unfolding byte_at
byte_at-add buf p k xs e = ap first (sym (drop-drop p k buf) ∙ ap (drop k) e)

pub u16_at-add :
    (buf : List ℕ) (p k hi lo : ℕ) (xs rest : List ℕ)
    → drop p buf ≡ xs
    → drop k xs ≡ hi ∷ lo ∷ rest
    → u16_at buf (p + k) ≡ done (hi * 256 + lo)
unfolding u16_at byte_at
u16_at-add buf p k hi lo xs rest e at = ground (arith, at', drop-suc buf (p + k) hi (lo ∷ rest) at')
  where
    at' : drop (p + k) buf ≡ hi ∷ lo ∷ rest
    at' = sym (drop-drop p k buf) ∙ ap (drop k) e ∙ at
