-- ===== src/Libev/Client.antt =====
-- libev/demo1_echo_client.cpp: main, stdin_cb and conn_cb.
use cpp_example.Common.{
  ℕ, Bool, true, false, Option, none, some, List, [], ◌∷◌, ◌++◌, length, replicate, if◌then◌else◌,
}
use cpp_example.Common.Outcome.{Outcome, done, ◌>>=◌, read_at, write_at}
use cpp_example.Echo.Sys.{eagain, eintr, other_error, Got, got, failed, Act, write, close, print}
use cpp_example.Libev.Server.{buffer_size}

-- The io_buf that both watchers point at, the watcher of the socket, and whether it is started.
-- The watcher of the standard input is never stopped.
pub record Client : Type 0 where
  pub chars : List ℕ
  pub len : ℕ
  pub connfd : ℕ
  pub watching : Bool

pub data Connected : Type 0 where
  connects in_progress connect_fails : Connected

-- The value of main before the loop, or the state that the loop runs on.
pub data ClientSetup : Type 0 where
  minus_one : List Act → ClientSetup
  crashes : ClientSetup
  runs : Client → ClientSetup

unfoldable pub use_connection : ℕ → Bool → ClientSetup
use_connection connfd true =
    runs (record { chars = replicate buffer_size 0; len = 0; connfd = connfd; watching = true })
use_connection connfd false = crashes

-- main, over the results of socket and connect, and whether both calls of malloc give a block.
unfoldable pub client_setup : Option ℕ → Connected → Bool → ClientSetup
client_setup none result allocated = minus_one []
client_setup (some connfd) connects allocated = use_connection connfd allocated
client_setup (some connfd) in_progress allocated = use_connection connfd allocated
client_setup (some connfd) connect_fails allocated = minus_one (close connfd ∷ [])

-- `write(fd, buf->data, n)` of what was read; then the buffer is cleared.
unfoldable pub pass_on : (List ℕ → Act) → List ℕ → Client → Outcome (Client × List Act)
pass_on to msg c = do
  new ← write_at c.chars 0 msg
  out ← read_at new 0 (length msg)
  done (record c { chars = replicate buffer_size 0; len = 0 }, to out ∷ [])

-- `readable` is EV_READ & revents. The end of the standard input, a read of no bytes, is passed on
-- too: it neither stops the watcher nor the connection.
unfoldable pub stdin_cb : Bool → Got → Client → Outcome (Client × List Act)
stdin_cb false reply c = done (c, [])
stdin_cb true (failed e) c = done (c, [])
stdin_cb true (got msg) c = pass_on (write c.connfd) msg c

abbrev pub stop_connection : Client → Client × List Act
stop_connection c = (record c { watching = false }, close c.connfd ∷ [])

unfoldable pub conn_cb : Bool → Got → Client → Outcome (Client × List Act)
conn_cb false reply c = done (c, [])
conn_cb true (failed eagain) c = done (c, [])
conn_cb true (failed eintr) c = done (stop_connection c)
conn_cb true (failed other_error) c = done (stop_connection c)
conn_cb true (got []) c = done (stop_connection c)
conn_cb true (got (b ∷ bs)) c = pass_on print (b ∷ bs) c

-- What the loop calls a watcher's callback for.
pub data Event : Type 0 where
  typed : Got → Event
  arrived : Got → Event

unfoldable pub dispatch : Event → Client → Outcome (Client × List Act)
dispatch (typed reply) c = stdin_cb true reply c
dispatch (arrived reply) c = if c.watching then conn_cb true reply c else done (c, [])

-- ev_run over the events in their order.
unfoldable pub client_run : List Event → Client → Outcome (Client × List Act)
client_run [] c = done (c, [])
client_run (e ∷ es) c =
    dispatch e c >>= λ first. client_run es first.0 >>= λ rest. done (rest.0, first.1 ++ rest.1)
