-- ===== src/C1000k/Client.antt =====
-- network/demo4_c1000k_client.cpp: the rounds of main. The decimal digits that sprintf writes are a
-- parameter. `sockfd` stays 0 in a round that opens no connection.
use cpp_example.Common.{
  ℕ, ◌+◌, ◌-◌, ◌%◌, ◌==◌, ◌&&◌, ◌||◌, ltb, leb, Bool, true, false, Option, none, some, List, [],
  ◌∷◌, ◌++◌, length, take, replicate, erase, if◌then◌else◌,
}
use cpp_example.Common.Outcome.{Outcome, done, ◌>>=◌, read_at, write_at, printed_string}
use cpp_example.Echo.Sys.{eintr, eagain, other_error, Got, got, failed}

abbrev pub max_buffer : ℕ
max_buffer = 128

abbrev pub max_port : ℕ
max_port = 100

abbrev pub max_connections : ℕ
max_connections = 100000

-- The connections that are open and registered, and what was sent on which descriptor.
pub record Client : Type 0 where
  pub port_index : ℕ
  pub connections : ℕ
  pub is_continue : ℕ
  pub wbuf : List ℕ
  pub registered : List ℕ
  pub tried : List ℕ  -- the ports of the calls of connect
  pub sent : List (ℕ × List ℕ)

-- One ready event, with what recv returns if it is called.
pub record Event : Type 0 where
  pub clientfd : ℕ
  pub writable : Bool
  pub readable : Bool
  pub received : Got

pub record Round : Type 0 where
  pub socket : Option ℕ
  pub connects : Bool
  pub events : List Event

pub data Turn : Type 0 where
  ends : Client → Turn  -- the label err: main returns 0
  goes : ℕ → Client → Turn  -- with sockfd

-- " Data From MulClient\n", "Hello Server: client --> " and "data from ".
abbrev pub first_text : List ℕ
first_text =
    32 ∷ 68 ∷ 97 ∷ 116 ∷ 97 ∷ 32 ∷ 70 ∷ 114 ∷ 111 ∷ 109 ∷ 32 ∷ 77 ∷ 117 ∷ 108 ∷ 67 ∷ 108 ∷ 105 ∷ 101
    ∷ 110 ∷ 116 ∷ 10 ∷ []

abbrev pub hello : List ℕ
hello =
    72 ∷ 101 ∷ 108 ∷ 108 ∷ 111 ∷ 32 ∷ 83 ∷ 101 ∷ 114 ∷ 118 ∷ 101 ∷ 114 ∷ 58 ∷ 32 ∷ 99 ∷ 108 ∷ 105
    ∷ 101 ∷ 110 ∷ 116 ∷ 32 ∷ 45 ∷ 45 ∷ 62 ∷ 32 ∷ []

abbrev pub data_from : List ℕ
data_from = 100 ∷ 97 ∷ 116 ∷ 97 ∷ 32 ∷ 102 ∷ 114 ∷ 111 ∷ 109 ∷ 32 ∷ []

abbrev pub quit : List ℕ
quit = 113 ∷ 117 ∷ 105 ∷ 116 ∷ []

abbrev pub same_text : List ℕ → List ℕ → Bool
same_text [] [] = true
same_text [] (y ∷ ys) = false
same_text (x ∷ xs) [] = false
same_text (x ∷ xs) (y ∷ ys) = if x == y then same_text xs ys else false

-- `if (++port_index >= MAX_PORT) port_index = 0`.
unfoldable pub next_port : ℕ → ℕ
next_port port_index = if leb max_port (port_index + 1) then 0 else port_index + 1

-- `send(sockfd, wbuf, strlen(wbuf), 0)` behind a sprintf of `text`.
unfoldable pub send_text : ℕ → List ℕ → Client → Outcome Client
send_text sockfd text c = do
  wbuf ← write_at c.wbuf 0 (text ++ 0 ∷ [])
  line ← printed_string wbuf
  message ← read_at wbuf 0 (length line)
  done (record c { wbuf = wbuf; sent = c.sent ++ (sockfd, message) ∷ [] })

-- strlen(wbuf) bounds what recv puts into `rbuf`, which is cleared and printed as a string.
unfoldable pub receive : List ℕ → List ℕ → Outcome (List ℕ × ℕ)
receive msg wbuf = do
  line ← printed_string wbuf
  let taken : List ℕ = take (length line) msg
  rbuf ← write_at (replicate max_buffer 0) 0 taken
  text ← printed_string rbuf
  done (text, length taken)

abbrev pub close_client : ℕ → Client → Client
close_client clientfd c = record c { registered = erase clientfd c.registered }

-- Whether the round waits for events.
abbrev pub polls : Client → Bool
polls c = (c.connections % 1000 == 999) || leb max_connections c.connections

module _ (digits : ℕ → List ℕ) where
  -- The part of the round that opens a connection.
  unfoldable pub open_connection : ℕ → Option ℕ → Bool → Client → Outcome Turn
  open_connection port none connects c = done (ends c)
  open_connection port (some sockfd) false c =
      done (ends (record c { tried = c.tried ++ (port + c.port_index) ∷ [] }))
  open_connection port (some sockfd) true c =
      send_text sockfd (hello ++ digits c.connections ++ 10 ∷ [])
        (record c { tried = c.tried ++ (port + c.port_index) ∷ [] })
      >>= λ c1. done (
          goes sockfd
            (record c1 { registered = sockfd ∷ c1.registered; connections = c1.connections + 1 }))

  unfoldable pub maybe_connect : ℕ → Round → Client → Outcome Turn
  maybe_connect port r c =
      if ltb c.connections max_connections && (c.is_continue == 0)
      then open_connection port r.socket r.connects c
      else done (goes 0 c)

  -- One pass of the loop over the events: messages are sent and received on `sockfd`.
  unfoldable pub handle_event : ℕ → Event → Client → Outcome Client
  handle_event sockfd e c =
      if e.writable
      then send_text sockfd (data_from ++ digits e.clientfd ++ 10 ∷ []) c
      else (if e.readable
          then elim e.received [
            | got msg ↦ receive msg c.wbuf >>= λ taken.
                if taken.1 == 0
                then done (close_client e.clientfd (record c { connections = c.connections - 1 }))
                else (if same_text taken.0 quit
                    then done (record c { is_continue = 0 })
                    else done c)
            | failed eintr ↦ done c
            | failed eagain ↦ done (close_client e.clientfd c)
            | failed other_error ↦ done (close_client e.clientfd c)
          ]
          else done (close_client e.clientfd c))

  unfoldable pub handle_events : ℕ → List Event → Client → Outcome Client
  handle_events sockfd [] c = done c
  handle_events sockfd (e ∷ es) c = handle_event sockfd e c >>= λ c1. handle_events sockfd es c1

  unfoldable pub one_round : ℕ → Round → Client → Outcome Turn
  one_round port r c =
      maybe_connect port r (record c { port_index = next_port c.port_index }) >>= λ turn.
      elim turn [
        | ends c1 ↦ done (ends c1)
        | goes sockfd c1 ↦
            if polls c1
            then (handle_events sockfd r.events c1 >>= λ c2. done (goes sockfd c2))
            else done (goes sockfd c1)
      ]

-- main up to the loop: `none` is the exit for missing arguments.
unfoldable pub client_start : ℕ → Option Client
client_start argc =
    if leb argc 2
    then none
    else some (record {
      port_index = 0;
      connections = 0;
      is_continue = 0;
      wbuf = first_text ++ replicate (max_buffer - length first_text) 0;
      registered = [];
      tried = [];
      sent = [];
    })
