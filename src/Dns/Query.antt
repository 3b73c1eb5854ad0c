-- ===== src/Dns/Query.antt =====
-- network/dns/async_dns_client.cpp: the header, the question and the request datagram.
-- The host is little-endian: `htons` swaps the two bytes of a short, and a short lies in memory
-- with its low byte first. `malloc` returns a buffer of arbitrary bytes, the argument `junk`.
pub mod Layout
pub mod Request
use cpp_example.Common.{
  ℕ, ◌+◌, ◌*◌, ◌/◌, ◌%◌, ◌^◌, ◌==◌, true, false, Option, none, some, List, [], ◌∷◌, ◌++◌, length,
  replicate, take,
}
use cpp_example.Common.Outcome.{Outcome, done, ◌>>=◌, read_at, write_at}

pub record Header : Type 0 where
  pub id : ℕ
  pub flags : ℕ
  pub qdcount : ℕ
  pub ancount : ℕ
  pub nscount : ℕ
  pub arcount : ℕ

pub record Question : Type 0 where
  pub len : ℕ
  pub qtype : ℕ
  pub qclass : ℕ
  pub qname : List ℕ

abbrev pub htons : ℕ → ℕ
htons v = v % 256 * 256 + v / 256 % 256

-- The bytes of an unsigned short in memory.
abbrev pub short_bytes : ℕ → List ℕ
short_bytes v = v % 256 ∷ v / 256 % 256 ∷ []

-- `random` is what random() returns. The test `flags != htons(0x0100)` has no effect, so the
-- flags stay as memset left them.
unfoldable pub dns_create_header : ℕ → Header
dns_create_header random =
    let zeroed : Header = record {
      id = 0;
      flags = 0;
      qdcount = 0;
      ancount = 0;
      nscount = 0;
      arcount = 0;
    } in
    record zeroed { id = random % 2 ^ 16; qdcount = htons 1 }

-- strtok with the delimiter ".": the segments between dots, the empty ones left out.
abbrev pub emit : List ℕ → List (List ℕ) → List (List ℕ)
emit [] rest = rest
emit (c ∷ cs) rest = (c ∷ cs) ∷ rest

pub tokens : List ℕ → List ℕ → List (List ℕ)
tokens cur [] = emit cur []
tokens cur (c ∷ cs) = elim (c == b'.') [
  | true ↦ emit cur (tokens [] cs)
  | false ↦ tokens (cur ++ c ∷ []) cs
]

-- The loop over the tokens: a length byte, then strncpy of the token with its terminator.
pub fill_qname : List ℕ → ℕ → List (List ℕ) → Outcome (List ℕ)
fill_qname buf off [] = done buf
fill_qname buf off (t ∷ ts) = do
  buf1 ← write_at buf off (length t % 256 ∷ [])
  buf2 ← write_at buf1 (off + 1) (t ++ 0 ∷ [])
  fill_qname buf2 (off + 1 + length t) ts

-- `memory` is what malloc(strlen(hostname) + 2) returns; on NULL the code returns -2.
unfoldable pub dns_create_question : Option (List ℕ) → List ℕ → Outcome (Option Question)
dns_create_question none hostname = done none
dns_create_question (some memory) hostname = do
  qname ← fill_qname memory 0 (tokens [] hostname)
  done (
      some (record { len = length hostname + 2; qtype = htons 1; qclass = htons 1; qname = qname }))

abbrev pub header_bytes : Header → List ℕ
header_bytes h =
    short_bytes h.id
    ++ (short_bytes h.flags
        ++ (short_bytes h.qdcount
            ++ (short_bytes h.ancount ++ (short_bytes h.nscount ++ short_bytes h.arcount))))

-- The request buffer afterwards, and the length returned.
unfoldable pub dns_build_request : Header → Question → List ℕ → Outcome (List ℕ × ℕ)
dns_build_request h q request = do
  r1 ← write_at request 0 (header_bytes h)
  name ← read_at q.qname 0 q.len
  r2 ← write_at r1 12 name
  r3 ← write_at r2 (12 + q.len) (short_bytes q.qtype)
  r4 ← write_at r3 (12 + q.len + 2) (short_bytes q.qclass)
  done (r4, q.len + 2 + 2 + 12)

abbrev pub zeros : ℕ → List ℕ
zeros n = replicate n 0

-- What memset leaves of the question when malloc gives no buffer: a name of length 0 at NULL.
abbrev pub zeroed_question : Question
zeroed_question = record { len = 0; qtype = 0; qclass = 0; qname = [] }

-- The datagram that a commit sends: `request[1024] = {0}`, and the first `req_len` bytes of it.
-- The result of dns_create_question is not looked at.
unfoldable pub dns_request : ℕ → Option (List ℕ) → List ℕ → Outcome (List ℕ)
dns_request random memory hostname = do
  question ← dns_create_question memory hostname
  let q : Question = elim question [ none ↦ zeroed_question | some built ↦ built ]
  r ← dns_build_request (dns_create_header random) q (zeros 1024)
  done (take r.1 r.0)
