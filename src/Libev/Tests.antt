-- ===== src/Libev/Tests.antt =====
-- libev: the theorems at a server with one client, and at a run of the client.
use cpp_example.Common.{◌≡◌, refl, true, false, some, none, List, [], ◌∷◌, replicate, arith}
use cpp_example.Common.Outcome.{done}
use cpp_example.Echo.Sys.{writes_of, prints_of, closes_of, Act, got, failed, eagain, write, print}
use cpp_example.Libev.Memory.{Watcher, reads, raw, a_watcher, an_io_buf, some_chars, store, malloc}
use cpp_example.Libev.Server.{
  Server, Revents, AcceptReplies, accept_cb, register_client, io_cb, buffer_size,
}
use cpp_example.Libev.Sound.{IsSound}
use cpp_example.Libev.Accept.{IsFresh, accept_cb-IsSound}
use cpp_example.Libev.Client.{
  Client, Event, typed, arrived, client_setup, runs, connects, use_connection, client_run, stdin_cb,
  conn_cb,
}
use cpp_example.Libev.Transcript.{}
use cpp_example.Libev.Relay.{client_relays}
use cpp_example.Libev.Together.{line_returned}

abbrev no_client : Server
no_client = record {
  heap = λ a. none;
  started = [];
  stopped = [];
  total_clients = 0;
  sockets = [];
  written = [];
}

abbrev replies : AcceptReplies
replies = record {
  watcher = some 100;
  error = false;
  client = some 5;
  ioctl_ok = true;
  buf = some 200;
  chars = some 300;
}

abbrev its_watcher : Watcher
its_watcher = record { fd = 5; events = reads; buf = 200 }

abbrev one_client : Server
one_client = record {
  heap = store 100 (some (a_watcher its_watcher)) (
      store 200 (some (an_io_buf (record { chars = 300; len = 0 }))) (
        store 300 (some (some_chars (replicate buffer_size 0)))
          (store 100 (some raw) (λ a. none))));
  started = 100 ∷ [];
  stopped = [];
  total_clients = 1;
  sockets = 5 ∷ [];
  written = [];
}

replies-IsFresh : IsFresh replies no_client.heap
replies-IsFresh = record {
  watcher = λ a e. refl;
  buf = λ a e. (refl, λ f. ground (arith, e, f));
  chars = λ a e. (refl, (λ f. ground (arith, e, f)), λ f. ground (arith, e, f));
}

accepts_one : accept_cb replies no_client ≡ done one_client
unfolding accept_cb register_client malloc
accepts_one = refl

no_client-IsSound : IsSound no_client
no_client-IsSound = record {
  owner = λ a. a;
  distinct = tt;
  counted = refl;
  owns = λ x h. absurd (ground (arith, h));
}

one_client-IsSound : IsSound one_client
one_client-IsSound =
    accept_cb-IsSound replies no_client one_client replies-IsFresh no_client-IsSound accepts_one

abbrev readable : Revents
readable = record { error = false; read = true; write = false }

abbrev connection : Client
connection = record { chars = replicate buffer_size 0; len = 0; connfd = 4; watching = true }

abbrev events : List Event
events =
    typed (got (104 ∷ 10 ∷ []))
    ∷ arrived (got (104 ∷ 10 ∷ []))
    ∷ arrived (failed eagain)
    ∷ arrived (got [])
    ∷ typed (got (105 ∷ 10 ∷ []))
    ∷ []

connection_lem : client_setup (some 4) connects true ≡ runs connection
unfolding client_setup use_connection
connection_lem = refl

client_relays_example :
    (c' : Client) × (acts : List Act) × (client_run events connection ≡ done (c', acts))
    × (writes_of acts ≡ (4, 104 ∷ 10 ∷ []) ∷ (4, 105 ∷ 10 ∷ []) ∷ [])
    × (prints_of acts ≡ (104 ∷ 10 ∷ []) ∷ [])
    × (closes_of acts ≡ 4 ∷ [])
    × (c'.watching ≡ false)
client_relays_example =
    client_relays 4 connects connection events connection_lem
      (omega arith, (omega arith, (tt, (omega arith, (omega arith, tt)))))

line_returned_example :
    (stdin_cb true (got (104 ∷ 10 ∷ [])) connection
      ≡ done (connection, write 4 (104 ∷ 10 ∷ []) ∷ []))
    × (s1 s2 : Server) × (io_cb 100 readable (got (104 ∷ 10 ∷ [])) one_client ≡ done s1)
    × (io_cb 100 (record { error = false; read = false; write = true }) (failed eagain) s1
        ≡ done s2)
    × (s2.written ≡ (5, 104 ∷ 10 ∷ []) ∷ [])
    × (s2.heap 100 ≡ some (a_watcher its_watcher))
    × IsSound s2
    × (conn_cb true (got (104 ∷ 10 ∷ [])) connection
        ≡ done (connection, print (104 ∷ 10 ∷ []) ∷ []))
line_returned_example =
    line_returned one_client 100 its_watcher connection (104 ∷ 10 ∷ []) (failed eagain)
      one_client-IsSound refl refl refl (record { clear = refl; empty = refl }) (omega arith)
      (omega arith)
