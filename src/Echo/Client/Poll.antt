-- ===== src/Echo/Client/Poll.antt =====
-- network/echo/d4_poll_echo_client.cpp: str_cli. poll reports nothing for a negative descriptor.
use cpp_example.Common.{ℕ, ◌&&◌, Bool, true, false, List, [], ◌∷◌, ◌++◌, if◌then◌else◌, Option}
use cpp_example.Echo.Sys.{Got, got, Act, write, shutdown_wr}
use cpp_example.Echo.Client.{Status, going, Pass, Step, Main, client_main, run_client}
use cpp_example.Echo.Client.Select.{read_sock}

-- `stdin_polled` is false once fds[0].fd is -1.
pub record PollState : Type 0 where
  pub stdineof : Bool
  pub stdin_polled : Bool

unfoldable pub poll_stdin : ℕ → Got → PollState → List Act → Step PollState
poll_stdin sockfd (got (b ∷ bs)) s acts = record {
  state = s;
  acts = acts ++ write sockfd (b ∷ bs) ∷ [];
  status = going;
}
poll_stdin sockfd _ s acts = record {
  state = record { stdineof = true; stdin_polled = false };
  acts = acts ++ shutdown_wr sockfd ∷ [];
  status = going;
}

unfoldable pub poll_cli_pass : ℕ → Pass → PollState → Step PollState
unfolding read_sock poll_stdin
poll_cli_pass sockfd p s =
    let first : List Act × Status =
      if p.sock_ready then read_sock p.sock_read s.stdineof else ([], going) in
    elim first.1 [
      | going ↦
          if s.stdin_polled && p.stdin_ready
          then poll_stdin sockfd p.stdin_read s first.0
          else record { state = s; acts = first.0; status = going }
      | ended ↦ record { state = s; acts = first.0; status = ended }
    ]

-- main of d4_poll_echo_client.cpp, with str_cli from its start.
unfoldable pub poll_main : List Pass → ℕ → Option ℕ → Bool → Main
poll_main passes = client_main (λ sockfd. run_client (poll_cli_pass sockfd) passes start)
  where
    start : PollState
    start = record { stdineof = false; stdin_polled = true }
