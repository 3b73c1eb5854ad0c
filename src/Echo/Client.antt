-- ===== src/Echo/Client.antt =====
-- network/echo: the four clients. Descriptor 0 is the standard input, and `sockfd` the connection;
-- Writen sends all it is given, Readline and Fgets give a line or nothing.
pub mod Select
pub mod Poll
pub mod Epoll
pub mod Same
pub mod Alike
use cpp_example.Common.{
  Bool, true, false, Option, none, some, List, [], ◌∷◌, ◌++◌, ℕ, ◌==◌, if◌then◌else◌,
}
use cpp_example.Common.Outcome.{c_string}
use cpp_example.Echo.Sys.{Got, Act, write, print}

-- How a call of str_cli stands: it goes on, it has returned, or err_quit has ended the process.
pub data Status : Type 0 where
  going returned quits : Status

-- What the system gives for one pass: which of the two descriptors are reported readable, and what
-- a read of them returns.
pub record Pass : Type 0 where
  pub sock_ready : Bool
  pub sock_read : Got
  pub stdin_ready : Bool
  pub stdin_read : Got

pub record Step (S : Type 0) : Type 0 where
  pub state : S
  pub acts : List Act
  pub status : Status

-- d1_echo_client.cpp: str_cli over the lines of the input, each with the server's response.
unfoldable pub line_str_cli : ℕ → List (Option (List ℕ) × Option (List ℕ)) → List Act × Status
line_str_cli sockfd [] = ([], going)
line_str_cli sockfd ((none, response) ∷ more) = ([], returned)
line_str_cli sockfd ((some line, none) ∷ more) = (write sockfd (c_string line) ∷ [], quits)
line_str_cli sockfd ((some line, some response) ∷ more) =
    let rest = line_str_cli sockfd more in
    (write sockfd (c_string line) ∷ print (c_string response) ∷ rest.0, rest.1)

-- The loop of a client: passes until one returns or ends the process.
module _ {S P : Type 0} (pass : P → S → Step S) where
  unfoldable pub run_client : List P → S → List Act × Status
  run_client [] s = ([], going)
  run_client (p ∷ ps) s =
      let t = pass p s in
      elim t.status [
        | going ↦ let rest = run_client ps t.state in (t.acts ++ rest.0, rest.1)
        | returned ↦ (t.acts, returned)
        | quits ↦ (t.acts, quits)
      ]

-- What main of a client comes to: err_quit for the arguments, -1, err_quit for connect, or the
-- call of str_cli on the connection.
pub data Main : Type 0 where
  usage no_socket no_connection : Main
  ran : List Act × Status → Main

unfoldable pub client_main : (ℕ → List Act × Status) → ℕ → Option ℕ → Bool → Main
client_main str_cli argc socket connected =
    if argc == 3
    then elim socket [
      | none ↦ no_socket
      | some sockfd ↦ if connected then ran (str_cli sockfd) else no_connection
    ]
    else usage

-- main of d1_echo_client.cpp.
unfoldable pub line_main : List (Option (List ℕ) × Option (List ℕ)) → ℕ → Option ℕ → Bool → Main
line_main lines = client_main (λ sockfd. line_str_cli sockfd lines)
