-- ===== src/Echo/Worker.antt =====
-- network/echo/d1_multi_thread_echo_server.cpp and d2_multi_process_echo_server.cpp: the loops that
-- accept, the worker of a connection, and the handler of SIGCHLD.
pub mod Race
pub mod Stream
use cpp_example.Common.{ℕ, Bool, true, false, Option, none, some, List, [], ◌∷◌, replicate}
use cpp_example.Common.Outcome.{Outcome, done, ◌>>=◌, write_at, printed_string}
use cpp_example.Echo.Sys.{
  Errno, eintr, eagain, other_error, Got, got, failed, Accepted, accepted, refused, Act, write,
  close, spawn, print, reaped, Turn, next, exits, Setup, fails, serves,
}

-- Socket, bind and listen of both servers; the result of listen is not looked at.
unfoldable pub listen_setup : Option ℕ → Bool → Setup (Unit {0})
listen_setup none bound = fails 1
listen_setup (some listenfd) false = fails 2
listen_setup (some listenfd) true = serves listenfd tt

-- One pass of the accepting loop of the threaded server.
unfoldable pub thread_pass : Accepted → Turn (Unit {0})
thread_pass (refused eintr) = next tt []
thread_pass (refused eagain) = exits []
thread_pass (refused other_error) = exits []
thread_pass (accepted clientfd) = next tt (spawn clientfd ∷ [])

-- Of the forking one: the parent closes its copy of the connection, whether fork failed or not.
unfoldable pub process_pass : Accepted → Bool → Turn (Unit {0})
process_pass (refused eintr) forked = next tt []
process_pass (refused eagain) forked = exits []
process_pass (refused other_error) forked = exits []
process_pass (accepted clientfd) true = next tt (spawn clientfd ∷ close clientfd ∷ [])
process_pass (accepted clientfd) false = next tt (close clientfd ∷ [])

pub data Ending : Type 0 where
  waiting : Ending  -- in read
  closed : Ending
  closed_on_error : Ending

abbrev pub buffer_length : ℕ
buffer_length = 1024

-- The loop of str_echo over what read returns in turn. Each block is put at the head of the buffer,
-- which is not cleared behind it, and the buffer is printed as a string.
unfoldable pub echo_blocks : ℕ → List ℕ → List Got → Outcome (List Act × Ending)
echo_blocks fd buffer [] = done ([], waiting)
echo_blocks fd buffer (got [] ∷ rs) = done (close fd ∷ [], closed)
echo_blocks fd buffer (got (b ∷ bs) ∷ rs) = do
  filled ← write_at buffer 0 (b ∷ bs)
  line ← printed_string filled
  rest ← echo_blocks fd filled rs
  done (write fd (b ∷ bs) ∷ print line ∷ rest.0, rest.1)
echo_blocks fd buffer (failed eintr ∷ rs) = echo_blocks fd buffer rs
echo_blocks fd buffer (failed eagain ∷ rs) = done (close fd ∷ [], closed_on_error)
echo_blocks fd buffer (failed other_error ∷ rs) = done (close fd ∷ [], closed_on_error)

-- str_echo of the threaded server, once it has read its descriptor through the pointer.
unfoldable pub str_echo : ℕ → List Got → Outcome (List Act × Ending)
str_echo fd rs = echo_blocks fd (replicate buffer_length 0) rs

-- The set-up of the forking server has the text of that of the threaded one. Its str_echo is given
-- the descriptor in place of a pointer to it, and is not modelled.
abbrev pub process_setup : Option ℕ → Bool → Setup (Unit {0})
process_setup = listen_setup

-- The loop of sig_chld over what waitpid(-1, &stat, WNOHANG) returns: a child, or 0 or -1.
unfoldable pub sig_chld : List (Option ℕ) → List Act
sig_chld [] = []
sig_chld (none ∷ rs) = []
sig_chld (some pid ∷ rs) = reaped pid ∷ sig_chld rs
