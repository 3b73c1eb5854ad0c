-- ===== src/C1000k/Tests.antt =====
-- network/demo4_c1000k_server.cpp and demo4_c1000k_client.cpp: the theorems at concrete states.
use cpp_example.Common.{
  ℕ, List, ◌+◌, ◌%◌, ◌++◌, ◌<◌, ◌≡◌, refl, true, false, some, [], ◌∷◌, replicate, length, arith,
}
use cpp_example.Common.Outcome.{done}
use cpp_example.C1000k.Reactor.{
  freed, bytes, SockItem, Reactor, Mallocs, zeroed_item, reactor_lookup,
}
use cpp_example.C1000k.Lookup.{IsWhole, IsKept, reactor_lookup-finds}
use cpp_example.C1000k.Server.{
  ctl_add, ctl_mod_in, ctl_mod_out, sends, message, accept_event, read_event, write_event,
}
use cpp_example.C1000k.Client
use cpp_example.C1000k.Client.{Round, Turn, first_text, one_round, client_start}
use cpp_example.C1000k.Rounds.{IsTurnBounded, here, rounds_bounded}
use cpp_example.C1000k.Service.{connection_echoes}

abbrev succeeds : Mallocs
succeeds = record { items = true; block = true }

abbrev fails : Mallocs
fails = record { items = false; block = false }

abbrev empty : Reactor
empty = record { epoll_fd = 3; block_count = 0; eventblocks = [] }

empty-IsWhole : IsWhole empty
empty-IsWhole = record { counted = refl; full = tt }

reactor_lookup-finds_example :
    (r : Reactor) × (reactor_lookup (succeeds ∷ succeeds ∷ []) 1030 empty
      ≡ done (some (record { block = 1; index = 6 }), r))
    × IsWhole r
    × IsKept empty r
    × (1 < length r.eventblocks)
reactor_lookup-finds_example =
    reactor_lookup-finds (succeeds ∷ succeeds ∷ []) 1030 empty empty-IsWhole (omega arith)
      ((refl, refl), ((refl, refl), tt)) (omega arith)

connection_echoes_example :
    (r1 r2 : Reactor) × (accept_event (some 5) (succeeds ∷ []) true true empty
      ≡ done (some (r1, ctl_add 5 ∷ [])))
    × (read_event 5 [] (message (104 ∷ 105 ∷ [])) r1 ≡ done (r2, ctl_mod_out 5 ∷ []))
    × (write_event 5 [] r2 ≡ done (r2, sends 5 (104 ∷ 105 ∷ replicate 126 0) ∷ ctl_mod_in 5 ∷ []))
    × IsWhole r2
connection_echoes_example =
    connection_echoes 5 (succeeds ∷ []) (104 ∷ 105 ∷ []) empty empty-IsWhole (omega arith)
      ((refl, refl), tt) (omega arith) (omega arith)

-- One block, in which descriptor 1 has an item with buffers.
abbrev item : SockItem
item = record zeroed_item { fd = 1; rbuf = bytes (replicate 128 0); wbuf = bytes (replicate 128 0) }

abbrev one_block : Reactor
one_block = record {
  epoll_fd = 3;
  block_count = 1;
  eventblocks = (zeroed_item ∷ item ∷ replicate 1022 zeroed_item) ∷ [];
}

one_block-IsWhole : IsWhole one_block
one_block-IsWhole = record { counted = refl; full = (refl, tt) }

abbrev hung_up_block : Reactor
hung_up_block = record one_block {
  eventblocks =
      (zeroed_item
        ∷ record item { fd = 0; rbuf = freed; wbuf = freed }
        ∷ replicate 1022 zeroed_item)
      ∷ [];
}

-- The client: its first round.
abbrev digit : ℕ → List ℕ
digit n = (48 + n % 10) ∷ []

abbrev first_client : Client.Client
first_client = record {
  port_index = 0;
  connections = 0;
  is_continue = 0;
  wbuf = first_text ++ replicate 107 0;
  registered = [];
  tried = [];
  sent = [];
}

first_client_lem : client_start 3 ≡ some first_client
unfolding client_start
first_client_lem = refl

abbrev first_round : Round
first_round = record { socket = some 5; connects = true; events = [] }

rounds_bounded_example :
    (turn : Turn) × (one_round digit 9000 first_round first_client ≡ done turn) × IsTurnBounded turn
rounds_bounded_example =
    rounds_bounded digit 9000 3 first_client first_client first_round (λ n. omega arith)
      first_client_lem here (λ sockfd c1 e. record { distinct = tt; known = tt })
