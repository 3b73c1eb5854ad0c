-- ===== src/Dns/Async/Events.antt =====
-- network/dns/async_dns_client.cpp: what becomes of a query between commit and callback.
use cpp_example.Common.{
  erase, ℕ, zero, suc, ◌+◌, ◌-◌, ◌*◌, ◌≤◌, ◌<◌, ◌≡◌, refl, ap, ◌∙◌, true, List, [], ◌∷◌, ◌++◌,
  append_assoc, length, take, All, arith, some,
}
use cpp_example.Common.Outcome.{c_string, done}
use cpp_example.Dns.Name.Encode.{join_dots, IsLabel}
use cpp_example.Dns.Query.{zeros}
use cpp_example.Dns.Response.{Item}
use cpp_example.Dns.Response.Encode.{
  Answer, address, alias, encode_answers, encode_response, items_of,
}
use cpp_example.Dns.Response.Correct.{Fits, dns_parse_response-encode}
use cpp_example.Dns.Async.{
  EpArg, Client, without, received, dns_async_client_free_domains, finish_event, handle_event,
}

-- The frees undo the allocations of a list and its entries.
pub free_domains_all :
    (is : List Item) (n : ℕ) → dns_async_client_free_domains is (n + 1 + 2 * length is) ≡ n
unfolding dns_async_client_free_domains
free_domains_all [] n = omega arith
free_domains_all (i ∷ is) n =
    ap (dns_async_client_free_domains is) (omega arith) ∙ free_domains_all is n

encode_answers-append :
    (rs : List Answer) (xs ys : List ℕ) → encode_answers rs xs ++ ys ≡ encode_answers rs (xs ++ ys)
encode_answers-append [] xs ys = refl
encode_answers-append (address t a ∷ rs) xs ys = simp (encode_answers-append rs xs ys)
encode_answers-append (alias t target ∷ rs) xs ys =
    simp (append_assoc, encode_answers-append rs xs ys)

encode_response-append :
    (id flags : ℕ) (question : List (List ℕ)) (rs : List Answer) (xs ys : List ℕ)
    → encode_response id flags question rs xs ++ ys
      ≡ encode_response id flags question rs (xs ++ ys)
encode_response-append id flags question rs xs ys =
    simp (append_assoc, encode_answers-append rs xs ys)

take-append_le :
    (n : ℕ) (xs ys : List ℕ) → length xs ≤ n → take n (xs ++ ys) ≡ xs ++ take (n - length xs) ys
take-append_le n [] ys h = let e : n - 0 ≡ n = omega arith in rw e refl
take-append_le zero (x ∷ xs) ys h = absurd (omega arith)
take-append_le (suc n) (x ∷ xs) ys h =
    let e : suc n - suc (length xs) ≡ n - length xs = omega arith in
    rw e (ap (λ t. x ∷ t) (take-append_le n xs ys (omega arith)))

-- The buffer after a response came: the response, with zeros behind it.
pub received_encode :
    (id flags : ℕ) (question : List (List ℕ)) (rs : List Answer) (rest : List ℕ)
    → length (encode_response id flags question rs rest) ≤ 1024
    → received (encode_response id flags question rs rest)
      ≡ encode_response id flags question rs
          (rest ++ take (1024 - length (encode_response id flags question rs rest)) (zeros 1024))
received_encode id flags question rs rest small =
    take-append_le 1024 (encode_response id flags question rs rest) (zeros 1024) small
    ∙ encode_response-append id flags question rs rest _

-- A response of at most 1024 bytes, as a server writes it, reaches the callback that was
-- registered: one call, with the items of the response; the socket is then closed and
-- deregistered, and of the heap only the event's own argument is given back. (The response is of
-- the form and within the bounds of dns_parse_response-encode.)
pub handle_event-encode :
    (inet_ntop : List ℕ → List ℕ) (fuel id flags : ℕ) (question : List (List ℕ)) (rs : List Answer)
    (rest : List ℕ) (arg : EpArg) (c : Client)
    → All IsLabel question
    → All (λ b. 0 < b) (join_dots question)
    → length (join_dots question) < 128
    → length question + 1 < fuel
    → length rs < 65536
    → All (Fits fuel) rs
    → length (encode_response id flags question rs rest) ≤ 1024
    → handle_event inet_ntop fuel arg (encode_response id flags question rs rest) true c
      ≡ done (record {
        registered = without arg.sockfd c.registered;
        sockets = erase arg.sockfd c.sockets;
        sent = c.sent;
        delivered =
            c.delivered
            ++ record {
              callback = arg.cb;
              list = some (items_of (λ ip. c_string (inet_ntop ip)) (join_dots question) rs);
            }
              ∷ [];
        live = c.live - 1;
      })
unfolding handle_event finish_event
handle_event-encode inet_ntop fuel id flags question rs rest arg c good pos short enough few fits
      small =
    let (s, parsed, items, _) =
      dns_parse_response-encode inet_ntop fuel id flags question rs
        (rest ++ take (1024 - length (encode_response id flags question rs rest)) (zeros 1024)) good
        pos short enough few fits in
    ground (
      arith,
      received_encode id flags question rs rest small,
      parsed,
      items,
      free_domains_all s.items c.live,
    )
