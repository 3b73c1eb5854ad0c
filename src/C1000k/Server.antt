-- ===== src/C1000k/Server.antt =====
-- network/demo4_c1000k_server.cpp: main, init_server and is_listenfd. `events[i].events` is EPOLLIN
-- or EPOLLOUT, which is all that the server asks for.
use cpp_example.Common.{
  ℕ, ◌==◌, Bool, true, false, Option, none, some, List, [], ◌∷◌, ◌++◌, if◌then◌else◌, get_elem?,
  set, replicate,
}
use cpp_example.Common.Outcome.{Outcome, done, overrun, ◌>>=◌, write_at, printed_string}
use cpp_example.C1000k.Reactor.{
  Buffer, null, freed, bytes, SockItem, Reactor, Mallocs, Place, reactor_lookup,
}

abbrev pub buffer_length : ℕ
buffer_length = 128

abbrev pub port_count : ℕ
port_count = 100

-- The item at a place, and the reactor with another item there.
unfoldable pub item_at : Reactor → Place → Option SockItem
item_at r p = elim (get_elem? r.eventblocks p.block) [
  | none ↦ none
  | some items ↦ get_elem? items p.index
]

unfoldable pub with_item : Reactor → Place → SockItem → Reactor
with_item r p item = elim (get_elem? r.eventblocks p.block) [
  | none ↦ r
  | some items ↦ record r { eventblocks = set r.eventblocks p.block (set items p.index item) }
]

-- What the server asks of epoll and of the sockets.
pub data Act : Type 0 where
  ctl_add : ℕ → Act
  ctl_mod_in : ℕ → Act
  ctl_mod_out : ℕ → Act
  sends : ℕ → List ℕ → Act
  closes : ℕ → Act

-- The replies of `recv`: the bytes, none of them, or -1.
pub data Received : Type 0 where
  message : List ℕ → Received
  hung_up : Received
  failed : Received

-- An event with the replies to the calls that its handling makes: `accept`, the two calls of
-- calloc, `recv`, and those of malloc inside reactor_lookup.
pub record Event : Type 0 where
  pub fd : ℕ
  pub epollin : Bool
  pub epollout : Bool
  pub client : Option ℕ
  pub callocs : Bool × Bool
  pub received : Received
  pub mallocs : List Mallocs

-- init_server: the listening socket, -1 or -2. Here the socket is left open.
pub data Listening : Type 0 where
  no_socket : Listening
  no_bind : ℕ → Listening
  listens : ℕ → Listening

unfoldable pub init_server : Option ℕ → Bool → Listening
init_server none bound = no_socket
init_server (some fd) false = no_bind fd
init_server (some fd) true = listens fd

abbrev pub is_listenfd : List ℕ → ℕ → Bool
is_listenfd [] connfd = false
is_listenfd (fd ∷ fds) connfd = if fd == connfd then true else is_listenfd fds connfd

unfoldable pub calloc : Bool → Buffer
calloc ok = if ok then bytes (replicate buffer_length 0) else null

-- A null item: the field access is outside every object.
unfoldable pub the_place : Option Place × Reactor → Outcome (Place × Reactor)
the_place found = elim found.0 [ none ↦ overrun | some p ↦ done (p, found.1) ]

unfoldable pub the_item : Reactor → Place → Outcome SockItem
the_item r p = elim (item_at r p) [ none ↦ overrun | some item ↦ done item ]

-- `recv(fd, rbuf, BUFFER_LENGTH, 0)` of a message.
unfoldable pub fill : Buffer → List ℕ → Outcome (List ℕ)
fill null msg = overrun
fill freed msg = overrun
fill (bytes b) msg = write_at b 0 msg

-- `memcpy(wbuf, rbuf, BUFFER_LENGTH)`.
unfoldable pub copy : Buffer → List ℕ → Outcome Buffer
copy null b = overrun
copy freed b = overrun
copy (bytes w) b = write_at w 0 b >>= λ w'. done (bytes w')

-- The branch of `is_listenfd`; `none` is the break out of the loop over the events.
unfoldable pub accept_event :
    Option ℕ → List Mallocs → Bool → Bool → Reactor → Outcome (Option (Reactor × List Act))
accept_event none ms c1 c2 r = done none
accept_event (some fd) ms c1 c2 r = do
  found ← reactor_lookup ms fd r
  place ← the_place found
  item ← the_item place.1 place.0
  let fresh : SockItem = record item {
    fd = fd;
    rbuf = calloc c1;
    rlen = 0;
    wbuf = calloc c2;
    wlen = 0;
  }
  done (some (with_item place.1 place.0 fresh, ctl_add fd ∷ []))

-- `free`, which does nothing for a null pointer and may not be given a freed one.
unfoldable pub free : Buffer → Outcome Buffer
free null = done null
free freed = overrun
free (bytes b) = done freed

-- The branch of EPOLLIN, behind the lookup.
unfoldable pub read_item : ℕ → Received → Reactor → Place → SockItem → Outcome (Reactor × List Act)
read_item fd (message msg) r place item = do
  b ← fill item.rbuf msg
  line ← printed_string b
  w ← copy item.wbuf b
  done (with_item r place (record item { rbuf = bytes b; wbuf = w }), ctl_mod_out fd ∷ [])
read_item fd hung_up r place item = do
  rbuf ← free item.rbuf
  wbuf ← free item.wbuf
  done (with_item r place (record item { rbuf = rbuf; wbuf = wbuf; fd = 0 }), closes fd ∷ [])
read_item fd failed r place item = done (r, [])

-- The branch of EPOLLIN.
unfoldable pub read_event : ℕ → List Mallocs → Received → Reactor → Outcome (Reactor × List Act)
read_event fd ms got r = do
  found ← reactor_lookup ms fd r
  place ← the_place found
  item ← the_item place.1 place.0
  read_item fd got place.1 place.0 item

-- `send(fd, wbuf, BUFFER_LENGTH, 0)`, whose result is printed only; it fails for a null buffer.
unfoldable pub write_event : ℕ → List Mallocs → Reactor → Outcome (Reactor × List Act)
write_event fd ms r = do
  found ← reactor_lookup ms fd r
  place ← the_place found
  item ← the_item place.1 place.0
  elim item.wbuf [
    | bytes w ↦ done (place.1, sends fd w ∷ ctl_mod_in fd ∷ [])
    | null ↦ done (place.1, ctl_mod_in fd ∷ [])
    | freed ↦ overrun
  ]

-- One event.
unfoldable pub c1000k_event : List ℕ → Event → Reactor → Outcome (Option (Reactor × List Act))
c1000k_event sockfds e r =
    if is_listenfd sockfds e.fd
    then accept_event e.client e.mallocs e.callocs.0 e.callocs.1 r
    else (if e.epollin
        then (read_event e.fd e.mallocs e.received r >>= λ s. done (some s))
        else (if e.epollout
            then (write_event e.fd e.mallocs r >>= λ s. done (some s))
            else done (some (r, []))))

-- The loop over the events of one epoll_wait.
unfoldable pub c1000k_events : List ℕ → List Event → Reactor → Outcome (Reactor × List Act)
c1000k_events sockfds [] r = done (r, [])
c1000k_events sockfds (e ∷ es) r = do
  next ← c1000k_event sockfds e r
  elim next [
    | none ↦ done (r, [])
    | some s ↦ c1000k_events sockfds es s.0 >>= λ rest. done (rest.0, s.1 ++ rest.1)
  ]

-- The loop of main over the ports: the descriptors of those that listen. The others put a negative
-- number in the set, which no event has.
unfoldable pub listen_ports : List (Option ℕ × Bool) → List ℕ
listen_ports [] = []
listen_ports ((socket, bound) ∷ more) = elim (init_server socket bound) [
  | listens fd ↦ fd ∷ listen_ports more
  | _ ↦ listen_ports more
]

-- main up to its loop; `none` is the result -3.
unfoldable pub start_server : Bool → ℕ → List (Option ℕ × Bool) → Option (Reactor × List ℕ)
start_server allocated epoll_fd ports =
    if allocated
    then some
        (record { epoll_fd = epoll_fd; block_count = 0; eventblocks = [] }, listen_ports ports)
    else none
