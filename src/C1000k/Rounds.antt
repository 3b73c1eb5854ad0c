-- ===== src/C1000k/Rounds.antt =====
-- network/demo4_c1000k_client.cpp: the bounds over any run of the rounds.
use cpp_example.Common.{
  ℕ, ◌+◌, ◌<◌, ◌≡◌, refl, sym, ap, ◌∙◌, ◌==◌, ◌&&◌, ltb, leb, Bool, true, false, Option, none, some,
  List, [], ◌∷◌, ◌++◌, replicate, if◌then◌else◌, Bool-cases, inl, inr, arith,
}
use cpp_example.Common.Outcome.{Outcome, done, done_injective, ◌>>=◌}
use cpp_example.C1000k.Client.{
  Client, Round, Turn, ends, goes, max_connections, first_text, hello, next_port, open_connection,
  maybe_connect, handle_events, polls, one_round, client_start,
}
use cpp_example.C1000k.Text.{IsBounded, AreShort, send_text-IsText}
use cpp_example.C1000k.Bounded.{AreDelivered, hello_short, handle_events-IsBounded}

-- epoll reports descriptors that are registered when it is called, each once.
abbrev pub IsDelivered : (ℕ → List ℕ) → ℕ → Round → Client → Type 0
IsDelivered digits port r c =
    (sockfd : ℕ) (c1 : Client)
    → maybe_connect digits port r (record c { port_index = next_port c.port_index })
      ≡ done (goes sockfd c1)
    → AreDelivered r.events c1.registered

abbrev pub IsTurnBounded : Turn → Type 0
IsTurnBounded (ends c) = IsBounded c
IsTurnBounded (goes sockfd c) = IsBounded c

start-IsBounded : (argc : ℕ) (c : Client) → client_start argc ≡ some c → IsBounded c
unfolding client_start
start-IsBounded argc c e = elim (Bool-cases (leb argc 2)) [
  | inl few ↦ absurd (none_some (rw few at e))
  | inr enough ↦
      let same : some begin ≡ some c = rw enough at e in
      rw (← some_injective same) (record {
        ports = omega arith;
        capped = omega arith;
        entered = omega arith;
        wbuf = record { text = first_text; rest = replicate 106 0; parts = refl; size = refl };
      })
]
  where
    begin : Client
    begin = record {
      port_index = 0;
      connections = 0;
      is_continue = 0;
      wbuf = first_text ++ replicate 107 0;
      registered = [];
      tried = [];
      sent = [];
    }

    none_some : none ≡ some c → ⊥
    none_some h = cc

    some_injective : {a b : Client} → some a ≡ some b → a ≡ b
    some_injective h = cc

module _ (digits : ℕ → List ℕ) (short : AreShort digits) (port : ℕ) where
  next_port-IsBounded :
      (c : Client) → IsBounded c → IsBounded (record c { port_index = next_port c.port_index })
  unfolding next_port
  next_port-IsBounded c v = record {
    ports = ground (arith, v.ports);
    capped = v.capped;
    entered = v.entered;
    wbuf = v.wbuf;
  }

  open_connection-IsBounded :
      (socket : Option ℕ) (connects : Bool) (c : Client)
      → IsBounded c
      → c.connections < max_connections
      → (turn : Turn) × (open_connection digits port socket connects c ≡ done turn)
        × IsTurnBounded turn
  unfolding open_connection
  open_connection-IsBounded none connects c v room = (_, refl, v)
  open_connection-IsBounded (some sockfd) false c v room =
      (_, refl, record { ports = v.ports; capped = v.capped; entered = v.entered; wbuf = v.wbuf })
  open_connection-IsBounded (some sockfd) true c v room =
      let (wbuf, e, text) =
        send_text-IsText sockfd (hello ++ digits c.connections ++ 10 ∷ [])
          (record c { tried = c.tried ++ (port + c.port_index) ∷ [] }) v.wbuf
          (hello_short digits short c.connections) in
      let enter : Client → Outcome Turn = λ c1. done (
        goes sockfd
          (record c1 { registered = sockfd ∷ c1.registered; connections = c1.connections + 1 })) in
      (
        _,
        ap (λ o. o >>= enter) e,
        record {
          ports = v.ports;
          capped = omega (arith, room);
          entered = omega (arith, v.entered);
          wbuf = text;
        },
      )

  maybe_connect-IsBounded :
      (r : Round) (c : Client)
      → IsBounded c
      → (turn : Turn) × (maybe_connect digits port r c ≡ done turn) × IsTurnBounded turn
  unfolding maybe_connect
  maybe_connect-IsBounded r c v =
      elim (Bool-cases (ltb c.connections max_connections && (c.is_continue == 0))) [
        | inl opens ↦
            let (turn, e, w) =
              open_connection-IsBounded r.socket r.connects c v (ground (arith, opens)) in
            (turn, rw opens e, w)
        | inr stays ↦ (goes 0 c, rw stays refl, v)
      ]

  one_round-IsBounded :
      (r : Round) (c : Client)
      → IsBounded c
      → IsDelivered digits port r c
      → (turn : Turn) × (one_round digits port r c ≡ done turn) × IsTurnBounded turn
  unfolding one_round
  one_round-IsBounded r c v d =
      let (turn, e, w) =
        maybe_connect-IsBounded r (record c { port_index = next_port c.port_index })
          (next_port-IsBounded c v) in
      rw e (after turn e w)
    where
      after :
          (turn : Turn)
          → maybe_connect digits port r (record c { port_index = next_port c.port_index })
            ≡ done turn
          → IsTurnBounded turn
          → (result : Turn) × ((elim turn [
            | ends c1 ↦ done (ends c1)
            | goes sockfd c1 ↦
                if polls c1
                then (handle_events digits sockfd r.events c1 >>= λ c2. done (goes sockfd c2))
                else done (goes sockfd c1)
          ])
              ≡ done result)
            × IsTurnBounded result
      after (ends c1) e w = (ends c1, refl, w)
      after (goes sockfd c1) e w = elim (Bool-cases (polls c1)) [
        | inl waits ↦
            let (c2, e2, w2) =
              handle_events-IsBounded digits short sockfd r.events c1 w (d sockfd c1 e) in
            (goes sockfd c2, rw waits (rw e2 refl), w2)
        | inr skips ↦ (goes sockfd c1, rw skips refl, w)
      ]

-- A state between two rounds.
pub data Reach (digits : ℕ → List ℕ) (port : ℕ) (start : Client) : Client → Type 0 where
  here : Reach digits port start start
  then_round :
      {c c' : Client} {sockfd : ℕ}
      → Reach digits port start c
      → (r : Round) → IsDelivered digits port r c
      → one_round digits port r c ≡ done (goes sockfd c')
      → Reach digits port start c'

Reach-IsBounded :
    (digits : ℕ → List ℕ) (port : ℕ) {start c : Client}
    → AreShort digits
    → Reach digits port start c
    → IsBounded start
    → IsBounded c
Reach-IsBounded digits port short here v = v
Reach-IsBounded digits port short (then_round {c} {c'} run r d e) v =
    let (turn, e', w) =
      one_round-IsBounded digits short port r c (Reach-IsBounded digits port short run v) d in
    rw (done_injective (sym e' ∙ e)) at w

-- If sprintf prints an int in at most eleven bytes and epoll reports registered descriptors, each
-- once: after any number of rounds, whatever the calls return, the next round stays within both
-- buffers and returns; and after it at most 100000 connections are counted, no fewer than are
-- registered, and the next port is one of the hundred.
pub rounds_bounded :
    (digits : ℕ → List ℕ) (port argc : ℕ) (start c : Client) (r : Round)
    → AreShort digits
    → client_start argc ≡ some start
    → Reach digits port start c
    → IsDelivered digits port r c
    → (turn : Turn) × (one_round digits port r c ≡ done turn) × IsTurnBounded turn
rounds_bounded digits port argc start c r short e run d =
    one_round-IsBounded digits short port r c
      (Reach-IsBounded digits port short run (start-IsBounded argc start e)) d
