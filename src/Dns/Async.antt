-- ===== src/Dns/Async.antt =====
-- network/dns/async_dns_client.cpp: the context, the commit and the thread that takes the answers.
-- What a system call returns is an argument; what the code does to the kernel and the heap is the
-- state `Client`. A callback is a number.
pub mod Events
pub mod Sockets
pub mod Effects
pub mod Interleaving
use cpp_example.Common.{
  erase, ℕ, zero, suc, ◌+◌, ◌-◌, ◌*◌, ◌==◌, Bool, true, false, Option, none, some, List, [], ◌∷◌,
  ◌++◌, length, take, if◌then◌else◌, bit_and,
}
use Prim.Native.Nat.{bit_or}
use cpp_example.Common.Outcome.{Outcome, done, ◌>>=◌}
use cpp_example.Dns.Query.{zeros, dns_request}
use cpp_example.Dns.Response.{Item, Printed, Cursor, dns_parse_response}

pub record EpArg : Type 0 where
  pub sockfd : ℕ
  pub cb : ℕ

-- A call of a callback: which, with the list and the count; `none` is the count -1.
pub record Delivery : Type 0 where
  pub callback : ℕ
  pub list : Option (List Item)

pub record Client : Type 0 where
  pub registered : List EpArg  -- the interest list of epoll_fd
  pub sockets : List ℕ  -- open client sockets
  pub sent : List (List ℕ)
  pub delivered : List Delivery
  pub live : ℕ  -- blocks of the heap in use

abbrev pub o_nonblock : ℕ
o_nonblock = 0x800

-- The flags that F_SETFL gets, if it is called, and whether 0 is returned.
unfoldable pub set_block : Option ℕ → Bool → ℕ → Option ℕ × Bool
set_block none set_ok block = (none, false)
set_block (some flags) set_ok block =
    let new = if block == 0 then bit_or flags o_nonblock else flags - bit_and flags o_nonblock in
    (some new, set_ok)

-- The replies to the calls of one commit, in their order.
pub record CommitReplies : Type 0 where
  pub socket : Option ℕ
  pub getfl : Option ℕ
  pub setfl : Bool
  pub random : ℕ
  pub memory : Option (List ℕ)  -- malloc of the name
  pub eparg : Bool  -- calloc of the argument
  pub ctl_add : Bool

pub data Committed : Type 0 where
  exited : Committed  -- exit(-1)
  returned : Bool → Client → Committed  -- true for 0, false for -1

-- The results of set_block, connect and sendto are not looked at. The name's buffer is not freed.
unfoldable pub dns_async_client_commit : CommitReplies → List ℕ → ℕ → Client → Outcome Committed
dns_async_client_commit r domain cb c = elim r.socket [
  | none ↦ done exited
  | some fd ↦ dns_request r.random r.memory domain >>= λ request.
      let named : ℕ = elim r.memory [ none ↦ c.live | some _ ↦ c.live + 1 ] in
      let c1 : Client = record c {
        sockets = fd ∷ c.sockets;
        sent = c.sent ++ request ∷ [];
        live = named;
      } in
      if r.eparg
      then (if r.ctl_add
          then done (
              returned true (record c1 {
                registered = record { sockfd = fd; cb = cb } ∷ c.registered;
                live = named + 1;
              }))
          else done (returned false (record c1 { live = named + 1 })))
      else done (returned false c1)
]

-- Blocks in use after the two strings of each entry and the list are freed.
unfoldable pub dns_async_client_free_domains : List Item → ℕ → ℕ
dns_async_client_free_domains [] live = live - 1
dns_async_client_free_domains (i ∷ is) live = dns_async_client_free_domains is (live - 2)

abbrev pub without : ℕ → List EpArg → List EpArg
without fd [] = []
without fd (a ∷ rest) = if a.sockfd == fd then without fd rest else a ∷ without fd rest

-- `char buffer[1024] = {0}` after recvfrom of a datagram, or of none.
abbrev pub received : List ℕ → List ℕ
received datagram = take 1024 (datagram ++ zeros 1024)

abbrev pub close_event : Client → EpArg → Client
close_event c data_ = record c {
  registered = without data_.sockfd c.registered;
  sockets = erase data_.sockfd c.sockets;
}

-- What follows the parse, for the list that it made, if it did: the callback and the frees.
unfoldable pub finish_event : EpArg → Option (List Item) → Client → Client
unfolding dns_async_client_free_domains
finish_event data_ list c =
    let called : Client = record c {
      delivered = c.delivered ++ record { callback = data_.cb; list = list } ∷ [];
    } in
    let closed : Client = close_event called data_ in
    let freed : ℕ = elim list [
      | none ↦ c.live
      | some is ↦ dns_async_client_free_domains is (c.live + 1 + 2 * length is)
    ] in
    record closed { live = freed - 1 }

module _ (inet_ntop : List ℕ → List ℕ) (fuel : ℕ) where
  -- One ready event: its argument, the datagram, and whether calloc gives the list.
  unfoldable pub handle_event : EpArg → List ℕ → Bool → Client → Outcome Client
  handle_event data_ datagram allocated c =
      dns_parse_response inet_ntop fuel (received datagram) allocated >>= λ parsed.
      let list : Option (List Item) = elim parsed [ none ↦ none | some s ↦ some s.items ] in
      done (finish_event data_ list c)

  unfoldable pub handle_events : List (EpArg × List ℕ × Bool) → Client → Outcome Client
  handle_events [] c = done c
  handle_events ((data_, datagram, allocated) ∷ es) c = do
    c1 ← handle_event data_ datagram allocated c
    handle_events es c1

-- What epoll_wait returns: -1 with EINTR or EAGAIN, -1 with another error, or the ready events.
pub data Wait : Type 0 where
  again : Wait
  broken : Wait
  ready : List (EpArg × List ℕ × Bool) → Wait

-- The thread, over what epoll_wait returns in turn; `true` when its loop has ended.
unfoldable pub dns_async_client_proc :
    (List ℕ → List ℕ) → ℕ → List Wait → Client → Outcome (Client × Bool)
dns_async_client_proc inet_ntop fuel [] c = done (c, false)
dns_async_client_proc inet_ntop fuel (again ∷ ws) c = dns_async_client_proc inet_ntop fuel ws c
dns_async_client_proc inet_ntop fuel (broken ∷ ws) c = done (c, true)
dns_async_client_proc inet_ntop fuel (ready es ∷ ws) c = do
  c1 ← handle_events inet_ntop fuel es c
  dns_async_client_proc inet_ntop fuel ws c1

-- epoll_create, calloc and pthread_create: the context, if it is returned, and whether the epoll
-- descriptor and the context are given back when it is not.
pub data Started : Type 0 where
  no_epoll : Started  -- NULL, nothing was opened
  no_context : Started  -- NULL, the descriptor is closed
  no_thread : Started  -- NULL, the descriptor stays open and the context allocated
  running : ℕ → Client → Started

unfoldable pub dns_async_client_init : Option ℕ → Bool → Bool → Started
dns_async_client_init none context thread = no_epoll
dns_async_client_init (some epoll_fd) false thread = no_context
dns_async_client_init (some epoll_fd) true false = no_thread
dns_async_client_init (some epoll_fd) true true =
    running epoll_fd (record { registered = []; sockets = []; sent = []; delivered = []; live = 1 })
