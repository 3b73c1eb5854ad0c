-- ===== src/Dns/Tests.antt =====
-- network/dns: the theorems at concrete names, responses and states.
use cpp_example.Common.{
  ℕ, ◌≡◌, refl, Bool, true, false, some, List, [], ◌∷◌, All, length, arith, ◌<◌, ◌+◌,
}
use cpp_example.Common.Outcome.{done}
use cpp_example.Dns.Query.{Question, htons, dns_create_question, dns_request}
use cpp_example.Dns.Query.Layout.{NoDots, dns_create_question_safe}
use cpp_example.Dns.Query.Request.{dns_request-labels}
use cpp_example.Dns.Name.Encode.{IsLabel}
use cpp_example.Dns.Response.{Cursor, Item, dns_parse_response}
use cpp_example.Dns.Response.Encode.{Answer, address, alias, encode_response}
use cpp_example.Dns.Response.Correct.{dns_parse_response-encode}
use cpp_example.Dns.Async.{
  Client, CommitReplies, returned, running, handle_event, dns_async_client_init,
  dns_async_client_commit,
}
use cpp_example.Dns.Sync.{dns_client_commit}
use cpp_example.Dns.Sync.Whole.{dns_client_commit-encode}
use cpp_example.Dns.Async.Events.{handle_event-encode}
use cpp_example.Dns.Async.Effects
use cpp_example.Dns.Async.Effects.{count, called}
use cpp_example.Dns.Async.Interleaving.{start, commits, answered, queries_accounted}

-- The labels and the text of "ab.c".
abbrev labels : List (List ℕ)
labels = (97 ∷ 98 ∷ []) ∷ (99 ∷ []) ∷ []

abbrev host : List ℕ
host = 97 ∷ 98 ∷ 46 ∷ 99 ∷ []

labels-IsLabel : All IsLabel labels
labels-IsLabel = (
  record { nonempty = omega arith; short = omega arith },
  (record { nonempty = omega arith; short = omega arith }, tt),
)

labels-NoDots : All NoDots labels
labels-NoDots = ((omega arith, (omega arith, tt)), ((omega arith, tt), tt))

host-positive : All (λ c. 0 < c) host
host-positive = (omega arith, (omega arith, (omega arith, (omega arith, tt))))

abbrev six : List ℕ
six = 7 ∷ 7 ∷ 7 ∷ 7 ∷ 7 ∷ 7 ∷ []

dns_create_question_safe_example :
    (q : Question) × (dns_create_question (some six) host ≡ done (some q))
    × (length q.qname ≡ q.len)
    × (q.len ≡ length host + 2)
    × (q.qtype ≡ htons 1)
    × (q.qclass ≡ htons 1)
dns_create_question_safe_example = dns_create_question_safe six host refl

dns_request-labels_example :
    dns_request 513 (some six) host
    ≡ done (
        1 ∷ 2 ∷ 0 ∷ 0 ∷ 0 ∷ 1 ∷ 0 ∷ 0 ∷ 0 ∷ 0 ∷ 0 ∷ 0 ∷ 2 ∷ 97 ∷ 98 ∷ 1 ∷ 99 ∷ 0 ∷ 0 ∷ 1 ∷ 0 ∷ 1
        ∷ [])
dns_request-labels_example =
    dns_request-labels 513 six (97 ∷ 98 ∷ []) ((99 ∷ []) ∷ []) labels-IsLabel labels-NoDots refl
      (omega arith)

-- An alias and an address; the text of an address is taken to be its bytes.
abbrev answers : List Answer
answers =
    alias (record { t0 = 0; t1 = 1; t2 = 2; t3 = 3 }) labels
    ∷ address (record { t0 = 0; t1 = 61; t2 = 0; t3 = 0 })
        (record { i0 = 10; i1 = 1; i2 = 2; i3 = 3 })
    ∷ []

abbrev as_bytes : List ℕ → List ℕ
as_bytes ip = ip

abbrev item : Item
item = record { domain = host; ip = 10 ∷ 1 ∷ 2 ∷ 3 ∷ [] }

dns_parse_response-encode_example :
    (s : Cursor) × (dns_parse_response as_bytes 4 (encode_response 7 0 labels answers []) true
      ≡ done (some s))
    × (s.items ≡ item ∷ [])
    × (s.printed ≡ record { minutes = 1; seconds = 1 } ∷ [])
dns_parse_response-encode_example =
    dns_parse_response-encode as_bytes 4 7 0 labels answers [] labels-IsLabel host-positive
      (omega arith) (omega arith) (omega arith)
      ((labels-IsLabel, omega arith, omega arith), (tt, tt))

-- One query is out, on descriptor 5.
abbrev waiting : Client
waiting = record {
  registered = record { sockfd = 5; cb = 2 } ∷ [];
  sockets = 5 ∷ [];
  sent = [];
  delivered = [];
  live = 3;
}

handle_event-encode_example :
    handle_event as_bytes 4
      (record { sockfd = 5; cb = 2 })
      (encode_response 7 0 labels answers [])
      true
      waiting
    ≡ done (record {
      registered = [];
      sockets = [];
      sent = [];
      delivered = record { callback = 2; list = some (item ∷ []) } ∷ [];
      live = 2;
    })
handle_event-encode_example =
    handle_event-encode as_bytes 4 7 0 labels answers [] (record { sockfd = 5; cb = 2 }) waiting
      labels-IsLabel host-positive (omega arith) (omega arith) (omega arith)
      ((labels-IsLabel, omega arith, omega arith), (tt, tt)) (omega arith)

-- A commit, for which the last calloc succeeds or fails.
abbrev replies : ℕ → Bool → CommitReplies
replies fd allocated = record {
  socket = some fd;
  getfl = some 2;
  setfl = true;
  random = 513;
  memory = some six;
  eparg = allocated;
  ctl_add = true;
}

abbrev request : List ℕ
request =
    1 ∷ 2 ∷ 0 ∷ 0 ∷ 0 ∷ 1 ∷ 0 ∷ 0 ∷ 0 ∷ 0 ∷ 0 ∷ 0 ∷ 2 ∷ 97 ∷ 98 ∷ 1 ∷ 99 ∷ 0 ∷ 0 ∷ 1 ∷ 0 ∷ 1 ∷ []

request_lem : dns_request 513 (some six) host ≡ done request
request_lem =
    dns_request-labels 513 six (97 ∷ 98 ∷ []) ((99 ∷ []) ∷ []) labels-IsLabel labels-NoDots refl
      (omega arith)

-- One query, and one that fails.
abbrev from_start : Client
from_start = record { registered = []; sockets = []; sent = []; delivered = []; live = 1 }

abbrev asked : Client
asked = record {
  registered = record { sockfd = 5; cb = 2 } ∷ [];
  sockets = 5 ∷ [];
  sent = request ∷ [];
  delivered = [];
  live = 3;
}

abbrev answered_once : Client
answered_once = record {
  registered = [];
  sockets = [];
  sent = request ∷ [];
  delivered = record { callback = 2; list = some (item ∷ []) } ∷ [];
  live = 2;
}

abbrev refused_once : Client
refused_once = record answered_once { sockets = 6 ∷ []; sent = request ∷ request ∷ []; live = 3 }

started_lem : dns_async_client_init (some 4) true true ≡ running 4 from_start
unfolding dns_async_client_init
started_lem = refl

asked_lem : dns_async_client_commit (replies 5 true) host 2 from_start ≡ done (returned true asked)
unfolding dns_async_client_commit
asked_lem = rw request_lem refl

answered_lem :
    handle_event as_bytes 4
      (record { sockfd = 5; cb = 2 })
      (encode_response 7 0 labels answers [])
      true
      asked
    ≡ done answered_once
answered_lem =
    handle_event-encode as_bytes 4 7 0 labels answers [] (record { sockfd = 5; cb = 2 }) asked
      labels-IsLabel host-positive (omega arith) (omega arith) (omega arith)
      ((labels-IsLabel, omega arith, omega arith), (tt, tt)) (omega arith)

refused_lem :
    dns_async_client_commit (replies 6 false) host 3 answered_once
    ≡ done (returned false refused_once)
unfolding dns_async_client_commit
refused_lem = rw request_lem refl

queries_accounted_example :
    (count 2 (called refused_once) + count 2 (Effects.waiting refused_once) ≡ count 2 (2 ∷ []))
    × (length refused_once.sockets ≡ 1 + length refused_once.registered)
    × (refused_once.live ≡ 1 + 2 + length refused_once.registered)
queries_accounted_example = queries_accounted (2 ∷ []) 2 1 refused_once 2 (
    commits
      (answered (commits (start started_lem) (replies 5 true) host 2 5 true refl tt asked_lem)
        as_bytes 4 0 (record { sockfd = 5; cb = 2 }) (encode_response 7 0 labels answers []) true
        refl answered_lem)
      (replies 6 false) host 3 6 false refl tt refused_lem)

-- The same name and answers for the blocking client.
dns_client_commit-encode_example :
    (s : Cursor) × (dns_client_commit as_bytes 4
        (record {
          socket = some 6;
          random = 513;
          memory = some six;
          datagram = encode_response 7 0 labels answers [];
          allocated = true;
        })
        host
        []
      ≡ done (
          some (record {
            request =
                1 ∷ 2 ∷ 0 ∷ 0 ∷ 0 ∷ 1 ∷ 0 ∷ 0 ∷ 0 ∷ 0 ∷ 0 ∷ 0 ∷ 2 ∷ 97 ∷ 98 ∷ 1 ∷ 99 ∷ 0 ∷ 0 ∷ 1 ∷ 0
                ∷ 1 ∷ [];
            sockets = [];
            parsed = some s;
          })))
    × (s.items ≡ item ∷ [])
dns_client_commit-encode_example =
    dns_client_commit-encode as_bytes 4 513 7 0 6 six (97 ∷ 98 ∷ []) ((99 ∷ []) ∷ []) answers [] []
      labels-IsLabel labels-NoDots host-positive refl (omega arith) (omega arith) (omega arith)
      ((labels-IsLabel, omega arith, omega arith), (tt, tt)) (omega arith)
