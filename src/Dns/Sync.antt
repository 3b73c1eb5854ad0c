-- ===== src/Dns/Sync.antt =====
-- network/dns/sync_dns_client.cpp: the blocking client. Its encoder and its parser are the text of
-- async_dns_client.cpp again, so their definitions here are those of that file.
pub mod Whole
use cpp_example.Common.{erase, ℕ, Bool, true, false, Option, none, some, List, [], ◌∷◌, take}
use cpp_example.Common.Outcome.{Outcome, done, ◌>>=◌}
use cpp_example.Dns.Query
use cpp_example.Dns.Query.{Header, Question, zeroed_question, zeros}
use cpp_example.Dns.Name
use cpp_example.Dns.Response
use cpp_example.Dns.Response.{Cursor}
use cpp_example.Dns.Async.{received}

abbrev pub dns_create_header : ℕ → Header
dns_create_header = Query.dns_create_header

abbrev pub dns_create_question : Option (List ℕ) → List ℕ → Outcome (Option Question)
dns_create_question = Query.dns_create_question

abbrev pub dns_build_request : Header → Question → List ℕ → Outcome (List ℕ × ℕ)
dns_build_request = Query.dns_build_request

abbrev pub is_pointer : ℕ → Bool
is_pointer = Name.is_pointer

abbrev pub dns_parse_name : ℕ → List ℕ → ℕ → List ℕ → Outcome (List ℕ)
dns_parse_name = Name.dns_parse_name

abbrev pub dns_parse_response : (List ℕ → List ℕ) → ℕ → List ℕ → Bool → Outcome (Option Cursor)
dns_parse_response = Response.dns_parse_response

-- The bytes that sendto gets.
unfoldable pub sent_request : ℕ → Option (List ℕ) → List ℕ → Outcome (List ℕ)
sent_request random memory name = do
  question ← dns_create_question memory name
  let q : Question = elim question [ none ↦ zeroed_question | some built ↦ built ]
  built ← dns_build_request (dns_create_header random) q (zeros 1024)
  done (take built.1 built.0)

-- The replies to the calls of one blocking query.
pub record QueryReplies : Type 0 where
  pub socket : Option ℕ
  pub random : ℕ
  pub memory : Option (List ℕ)
  pub datagram : List ℕ
  pub allocated : Bool

-- What one blocking query leaves: the datagrams sent, the open sockets, and what was parsed.
pub record Queried : Type 0 where
  pub request : List ℕ
  pub sockets : List ℕ
  pub parsed : Option Cursor

-- sync_dns_client.cpp; `none` is exit(-1). The parsed list is neither used nor freed.
unfoldable pub dns_client_commit :
    (List ℕ → List ℕ) → ℕ → QueryReplies → List ℕ → List ℕ → Outcome (Option Queried)
dns_client_commit inet_ntop fuel r name sockets = elim r.socket [
  | none ↦ done none
  | some fd ↦ do
    request ← sent_request r.random r.memory name
    parsed ← dns_parse_response inet_ntop fuel (received r.datagram) r.allocated
    done (some (record { request = request; sockets = erase fd (fd ∷ sockets); parsed = parsed }))
]

-- main of sync_dns_client.cpp: the queries one after the other, until a socket fails.
unfoldable pub sync_main :
    (List ℕ → List ℕ) → ℕ → List (QueryReplies × List ℕ) → List ℕ → Outcome (List Queried × Bool)
sync_main inet_ntop fuel [] sockets = done ([], true)
sync_main inet_ntop fuel ((r, name) ∷ more) sockets = do
  queried ← dns_client_commit inet_ntop fuel r name sockets
  elim queried [
    | none ↦ done ([], false)
    | some q ↦ sync_main inet_ntop fuel more q.sockets >>= λ rest. done (q ∷ rest.0, rest.1)
  ]
