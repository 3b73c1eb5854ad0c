-- ===== src/Demos/Tests.antt =====
-- network/demo2_select.cpp and demo3_epoll.cpp: the theorems at short runs.
use cpp_example.Common.{
  Bool, ℕ, ◌==◌, ◌≡◌, refl, true, false, none, some, List, [], ◌∷◌, All, replicate, replicate-add,
  length-replicate, if◌then◌else◌, arith,
}
use cpp_example.Common.Outcome.{done}
use cpp_example.Echo.Sys.{Act, got, write, FdSet}
use cpp_example.Demos.Select.{Server, Pass, select_pass}
use cpp_example.Demos.Mixed.{last_message_to_all}
use cpp_example.Demos.Epoll
use cpp_example.Demos.Epoll.{input, handle_events}
use cpp_example.Demos.Padded.{IsSound, IsPadded, StaysWatched, writes_padded}

-- The clients 4 and 5 of a server that listens on 3.
abbrev clients : FdSet
clients fd = if fd == 4 then true else (if fd == 5 then true else false)

abbrev nobody : FdSet
nobody fd = false

abbrev two_clients : Server
two_clients = record {
  rfds_in = clients;
  wfds_in = nobody;
  lastfd = 5;
  buffer = replicate 128 0;
  ret = some 0;
}

abbrev message : ℕ → List ℕ
message fd = fd ∷ []

abbrev pass : FdSet × FdSet → Pass
pass out = record {
  selected = some out;
  accepted = none;
  received = λ fd. got (message fd);
  sent = λ fd. some 1;
}

last_message_to_all_example :
    (s1 s2 : Server) × (acts : List Act) × (select_pass 3 (pass (clients, nobody)) two_clients
      ≡ done (s1, acts))
    × (select_pass 3 (pass (nobody, clients)) s1
        ≡ done (s2, write 4 (5 ∷ []) ∷ write 5 (5 ∷ []) ∷ []))
last_message_to_all_example =
    last_message_to_all 3 4 (5 ∷ []) (4 ∷ 5 ∷ []) (pass (clients, nobody)) (pass (nobody, clients))
      (clients, nobody) (nobody, clients) message two_clients
      (record { front = replicate 127 0; parts = refl; size = refl }) refl refl refl
      ((refl, refl, omega arith, omega arith), ((refl, refl, omega arith, omega arith), tt)) refl
      refl refl ((refl, refl, refl), ((refl, refl, refl), tt))

abbrev one_client : Epoll.Server
one_client = record {
  rbuffer = replicate Epoll.buffer_length 0;
  wbuffer = replicate Epoll.buffer_length 0;
  watched = λ fd. if fd == 5 then some input else none;
}

abbrev event : Bool → Epoll.Event
event readable = record {
  fd = 5;
  readable = readable;
  writable = true;
  accepted = none;
  received = got (104 ∷ []);
}

one_client-IsSound : IsSound one_client
one_client-IsSound = record {
  ended = record {
    front = replicate 8191 0;
    parts = replicate-add {A = ℕ} 8191 1 0;
    size = length-replicate {A = ℕ} Epoll.buffer_length 0;
  };
  size = length-replicate {A = ℕ} Epoll.buffer_length 0;
}

writes_padded_example :
    (s' : Epoll.Server) × (acts : List Act) × (handle_events 3
        (event true ∷ event false ∷ [])
        one_client
      ≡ done (s', acts))
    × IsSound s'
    × All IsPadded acts
    × StaysWatched one_client s'
writes_padded_example =
    writes_padded 3 (event true ∷ event false ∷ []) one_client one_client-IsSound
      (omega arith, (omega arith, tt))
