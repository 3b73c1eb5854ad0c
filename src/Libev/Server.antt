-- ===== src/Libev/Server.antt =====
-- libev/demo1_echo_server.cpp: the set-up, accept_cb and io_cb.
use cpp_example.Common.{
  ℕ, ◌+◌, ◌-◌, ltb, Bool, Option, none, some, List, [], ◌∷◌, ◌++◌, length, replicate, erase,
  if◌then◌else◌,
}
use cpp_example.Common.Outcome.{Outcome, done, overrun, ◌>>=◌, read_at, write_at, printed_string}
use cpp_example.Echo.Sys.{Got, got, failed}
use cpp_example.Libev.Memory.{
  Interest, reads, writes, Watcher, IoBuf, a_watcher, an_io_buf, some_chars, Heap, store, malloc,
  watcher_at, io_buf_at, chars_at,
}

abbrev pub buffer_size : ℕ
buffer_size = 1024

-- The started watchers of clients, by address, those that libev has stopped on an error, the open
-- client sockets, and what was written.
pub record Server : Type 0 where
  pub heap : Heap
  pub started : List ℕ
  pub stopped : List ℕ
  pub total_clients : ℕ
  pub sockets : List ℕ
  pub written : List (ℕ × List ℕ)

-- The value of main before the loop: -1, 1 for setsockopt, or the loop runs on the socket.
pub data Setup : Type 0 where
  minus_one plus_one : Setup
  listens : ℕ → Server → Setup

-- ioctl(fd, FIONBIO, &flags): whether it is 0.
abbrev pub set_nonblocking : Bool → Bool
set_nonblocking ioctl_ok = ioctl_ok

-- main, over the results of socket, ioctl, setsockopt, bind and listen.
unfoldable pub server_setup : Option ℕ → Bool → Bool → Bool → Bool → Setup
server_setup none ioctl_ok reuse bound listening = minus_one
server_setup (some listenfd) ioctl_ok reuse bound listening =
    if set_nonblocking ioctl_ok
    then (if reuse
        then (if bound
            then (if listening
                then listens listenfd (record {
                  heap = λ a. none;
                  started = [];
                  stopped = [];
                  total_clients = 0;
                  sockets = [];
                  written = [];
                })
                else minus_one)
            else minus_one)
        else plus_one)
    else minus_one

-- What the calls of accept_cb return; `error` is EV_ERROR & revents.
pub record AcceptReplies : Type 0 where
  pub watcher : Option ℕ
  pub error : Bool
  pub client : Option ℕ
  pub ioctl_ok : Bool
  pub buf : Option ℕ
  pub chars : Option ℕ

-- The second half of accept_cb, from `total_clients++`: a null pointer is written through.
unfoldable pub register_client : Option ℕ → Option ℕ → Option ℕ → ℕ → Server → Outcome Server
register_client watcher none chars clientfd s = overrun
register_client watcher (some b) none clientfd s = overrun
register_client none (some b) (some c) clientfd s = overrun
register_client (some w) (some b) (some c) clientfd s = done (record s {
  heap = store w (some (a_watcher (record { fd = clientfd; events = reads; buf = b }))) (
      store b (some (an_io_buf (record { chars = c; len = 0 })))
        (store c (some (some_chars (replicate buffer_size 0))) s.heap));
  started = w ∷ s.started;
  total_clients = s.total_clients + 1;
})

-- The returns for an error keep the watcher that was allocated first, and after a failed ioctl the
-- socket.
unfoldable pub accept_cb : AcceptReplies → Server → Outcome Server
accept_cb r s =
    let s1 : Server = record s { heap = malloc r.watcher s.heap } in
    if r.error then done s1 else elim r.client [
      | none ↦ done s1
      | some clientfd ↦
          let s2 : Server = record s1 { sockets = clientfd ∷ s.sockets } in
          if set_nonblocking r.ioctl_ok
          then register_client r.watcher r.buf r.chars clientfd s2
          else done s2
    ]

-- The bits of revents.
pub record Revents : Type 0 where
  pub error : Bool
  pub read : Bool
  pub write : Bool

-- ev_io_stop, ev_io_set and ev_io_start.
unfoldable pub rearm : ℕ → Watcher → Interest → Server → Server
rearm w watcher events s = record s {
  heap = store w (some (a_watcher (record watcher { events = events }))) s.heap;
  started = w ∷ erase w s.started;
}

-- The end of the stream. The socket is not closed.
unfoldable pub drop_client : ℕ → Watcher → IoBuf → Server → Server
drop_client w watcher buf s = record s {
  heap = store w none (store watcher.buf none (store buf.chars none s.heap));
  started = erase w s.started;
  total_clients = s.total_clients - 1;
}

-- The branch of EV_READ.
unfoldable pub read_client : ℕ → Watcher → Got → Server → Outcome Server
read_client w watcher reply s = do
  buf ← io_buf_at watcher.buf s.heap
  old ← chars_at buf.chars s.heap
  elim reply [
    | failed e ↦ done s
    | got [] ↦ done (drop_client w watcher buf s)
    | got (c ∷ cs) ↦ write_at old 0 (c ∷ cs) >>= λ new. printed_string new >>= λ line. done (
        rearm w watcher writes (record s {
          heap =
              store watcher.buf (some (an_io_buf (record buf { len = length (c ∷ cs) })))
                (store buf.chars (some (some_chars new)) s.heap);
        }))
  ]

-- The branch of EV_WRITE.
unfoldable pub write_client : ℕ → Watcher → Server → Outcome Server
write_client w watcher s = do
  buf ← io_buf_at watcher.buf s.heap
  if ltb 0 buf.len
      then (do
        old ← chars_at buf.chars s.heap
        message ← read_at old 0 buf.len
        done (
            rearm w watcher reads (record s {
              heap =
                  store watcher.buf (some (an_io_buf (record buf { len = 0 })))
                    (store buf.chars (some (some_chars (replicate buffer_size 0))) s.heap);
              written = s.written ++ (watcher.fd, message) ∷ [];
            })))
      else done (rearm w watcher reads s)

-- Before it calls back with EV_ERROR, libev stops the watcher.
unfoldable pub stop_on_error : ℕ → Server → Server
stop_on_error w s = record s { started = erase w s.started; stopped = w ∷ s.stopped }

-- On an error nothing is freed and total_clients is not counted down.
unfoldable pub io_cb : ℕ → Revents → Got → Server → Outcome Server
io_cb w revents reply s =
    if revents.error
    then done (stop_on_error w s)
    else (watcher_at w s.heap >>= λ watcher.
        if revents.read
        then read_client w watcher reply s
        else (if revents.write then write_client w watcher s else done s))
