-- ===== src/Dns/Sync/Whole.antt =====
-- network/dns/sync_dns_client.cpp: one query from its name to its answers.
use cpp_example.Common.{
  ℕ, ◌+◌, ◌-◌, ◌≤◌, ◌<◌, ◌≡◌, ◌/◌, ◌%◌, ◌^◌, refl, ◌∙◌, true, Option, some, List, [], ◌∷◌, ◌++◌,
  All, length, take, arith,
}
use cpp_example.Common.Outcome.{done, c_string}
use cpp_example.Dns.Query.{dns_request, zeros}
use cpp_example.Dns.Query.Layout.{NoDots}
use cpp_example.Dns.Query.Request.{dns_request-labels}
use cpp_example.Dns.Name.Encode.{IsLabel, encode_labels, join_dots}
use cpp_example.Dns.Response.{Cursor}
use cpp_example.Dns.Response.Encode.{Answer, encode_response, items_of}
use cpp_example.Dns.Response.Correct.{Fits, dns_parse_response-encode}
use cpp_example.Dns.Async.Events.{received_encode}
use cpp_example.Dns.Sync.{sent_request, dns_client_commit}

sent_request_lem :
    (random : ℕ) (memory : Option (List ℕ)) (name : List ℕ)
    → sent_request random memory name ≡ dns_request random memory name
unfolding sent_request dns_request
sent_request_lem random memory name = refl

-- A blocking query for a name of labels, as a C string below 128 characters, to which a response of
-- at most 1024 bytes comes, in the form and within the bounds of dns_parse_response-encode: the
-- request sent has the question in it, the socket is closed again, and the items parsed are those
-- of the response.
pub dns_client_commit-encode :
    (inet_ntop : List ℕ → List ℕ) (fuel random id flags fd : ℕ) (memory l : List ℕ)
    (ls : List (List ℕ)) (rs : List Answer) (rest sockets : List ℕ)
    → All IsLabel (l ∷ ls)
    → All NoDots (l ∷ ls)
    → All (λ b. 0 < b) (join_dots (l ∷ ls))
    → length memory ≡ length (join_dots (l ∷ ls)) + 2
    → length (join_dots (l ∷ ls)) < 128
    → length (l ∷ ls) + 1 < fuel
    → length rs < 65536
    → All (Fits fuel) rs
    → length (encode_response id flags (l ∷ ls) rs rest) ≤ 1024
    → (s : Cursor) × (dns_client_commit inet_ntop fuel
          (record {
            socket = some fd;
            random = random;
            memory = some memory;
            datagram = encode_response id flags (l ∷ ls) rs rest;
            allocated = true;
          })
          (join_dots (l ∷ ls))
          sockets
        ≡ done (
            some (record {
              request =
                  random % 2 ^ 16 % 256
                  ∷ random % 2 ^ 16 / 256 % 256
                  ∷ 0
                  ∷ 0
                  ∷ 0
                  ∷ 1
                  ∷ 0
                  ∷ 0
                  ∷ 0
                  ∷ 0
                  ∷ 0
                  ∷ 0
                  ∷ (encode_labels (l ∷ ls) ++ (0 ∷ 0 ∷ 1 ∷ 0 ∷ 1 ∷ []));
              sockets = sockets;
              parsed = some s;
            })))
      × (s.items ≡ items_of (λ ip. c_string (inet_ntop ip)) (join_dots (l ∷ ls)) rs)
unfolding dns_client_commit
dns_client_commit-encode inet_ntop fuel random id flags fd memory l ls rs rest sockets good plain
      pos room short enough few fits small =
    let (s, parsed, items, _) =
      dns_parse_response-encode inet_ntop fuel id flags (l ∷ ls) rs
        (rest ++ take (1024 - length (encode_response id flags (l ∷ ls) rs rest)) (zeros 1024)) good
        pos short enough few fits in
    let sends =
      sent_request_lem random (some memory) (join_dots (l ∷ ls))
      ∙ dns_request-labels random memory l ls good plain room (omega (arith, short)) in
    (
      s,
      rw sends (rw (received_encode id flags (l ∷ ls) rs rest small) (rw parsed (ground arith))),
      items,
    )
