-- ===== src/Dns/Response.antt =====
-- network/dns/async_dns_client.cpp: the parser of a response.
pub mod Encode
pub mod Correct
use cpp_example.Common.{
  ℕ, zero, suc, ◌+◌, ◌/◌, ◌%◌, ◌==◌, ltb, Bool, List, [], ◌∷◌, ◌++◌, length, if◌then◌else◌, Option,
  none, some,
}
use cpp_example.Common.Outcome.{Outcome, done, overrun, ◌>>=◌, c_string, read_at, u16_at}
use cpp_example.Dns.Name.{dns_parse_name, skip_name}

abbrev pub dns_host : ℕ
dns_host = 0x01

abbrev pub dns_cname : ℕ
dns_cname = 0x05

-- struct dns_item: the two C strings of an address record.
pub record Item : Type 0 where
  pub domain : List ℕ
  pub ip : List ℕ

-- The two lines printed for an address record: the minutes and seconds to live.
pub record Printed : Type 0 where
  pub minutes : ℕ
  pub seconds : ℕ

-- The locals that the loop over the answers changes: `ptr` and the entries of `list`, which
-- `cnt` counts, with what was printed.
pub record Cursor : Type 0 where
  pub ptr : ℕ
  pub items : List Item
  pub printed : List Printed

-- strlen(aname): with no zero written, one of the cleared bytes behind ends it, if any is left.
unfoldable pub name_string : List ℕ → Outcome (List ℕ)
name_string out = if ltb (length (c_string out)) 128 then done (c_string out) else overrun

unfoldable pub skip_queries : ℕ → ℕ → List ℕ → ℕ → Outcome ℕ
skip_queries fuel zero chunk ptr = done ptr
skip_queries fuel (suc n) chunk ptr = do
  behind ← skip_name fuel chunk ptr
  skip_queries fuel n chunk (behind + 4)

module _ (inet_ntop : List ℕ → List ℕ) (fuel : ℕ) (chunk : List ℕ) where
  -- The body of the branch `type == DNS_HOST`.
  unfoldable pub parse_host : Cursor → List ℕ → ℕ → ℕ → ℕ → Outcome Cursor
  parse_host s aname ttl datalen at =
      if datalen == 4
      then (do
        netip ← read_at chunk at 4
        name ← name_string aname
        done (record {
          ptr = at + datalen;
          items = s.items ++ record { domain = name; ip = c_string (inet_ntop netip) } ∷ [];
          printed = s.printed ++ record { minutes = ttl / 60; seconds = ttl % 60 } ∷ [];
        }))
      else done (record s { ptr = at + datalen })

  -- One round of the loop over the answers. A record of another type is not skipped.
  unfoldable pub parse_answer : Cursor → Outcome Cursor
  unfolding parse_host
  parse_answer s = do
    aname ← dns_parse_name fuel chunk s.ptr []
    type ← u16_at chunk (s.ptr + 2)
    qclass ← u16_at chunk (s.ptr + 4)
    ttl ← u16_at chunk (s.ptr + 6)
    datalen ← u16_at chunk (s.ptr + 10)
    let at = s.ptr + 12
    if type == dns_cname
        then (dns_parse_name fuel chunk at [] >>= λ cname. done (record s { ptr = at + datalen }))
        else (if type == dns_host
            then parse_host s aname ttl datalen at
            else done (record s { ptr = at }))

  unfoldable pub parse_answers : ℕ → Cursor → Outcome Cursor
  parse_answers zero s = done s
  parse_answers (suc n) s = do s1 ← parse_answer s; parse_answers n s1

  -- `allocated` tells whether calloc gave the list; `none` is the result -1.
  unfoldable pub dns_parse_response : Bool → Outcome (Option Cursor)
  dns_parse_response allocated = do
    querys ← u16_at chunk 4
    answers ← u16_at chunk 6
    behind ← skip_queries fuel querys chunk 12
    if allocated
        then (do
          s ← parse_answers answers (record { ptr = behind; items = []; printed = [] })
          done (some s))
        else done none
