-- ===== src/Echo/Client/Select.antt =====
-- network/echo/d3_select_echo_client.cpp: str_cli.
use cpp_example.Common.{
  ℕ, ◌==◌, ◌&&◌, Bool, true, List, [], ◌∷◌, ◌++◌, if◌then◌else◌, Option, false,
}
use cpp_example.Echo.Sys.{Got, got, Act, write, print, shutdown_wr, FdSet, fd_zero, fd_put, fd_clr}
use cpp_example.Echo.Client.{
  Status, going, returned, quits, Pass, Step, Main, client_main, run_client,
}

pub record SelectState : Type 0 where
  pub stdineof : Bool
  pub rset : FdSet

-- The half of a pass that reads the standard input.
unfoldable pub select_stdin : ℕ → Got → Bool → FdSet → List Act → Step SelectState
select_stdin sockfd (got (b ∷ bs)) eof rset acts = record {
  state = record { stdineof = eof; rset = rset };
  acts = acts ++ write sockfd (b ∷ bs) ∷ [];
  status = going;
}
select_stdin sockfd _ eof rset acts = record {
  state = record { stdineof = true; rset = fd_clr 0 rset };
  acts = acts ++ shutdown_wr sockfd ∷ [];
  status = going;
}

-- The half that reads the connection: what it prints, or how the call ends.
unfoldable pub read_sock : Got → Bool → List Act × Status
read_sock (got (b ∷ bs)) eof = (print (b ∷ bs) ∷ [], going)
read_sock _ eof = ([], if eof then returned else quits)

-- The registrations of a pass; select leaves in the set those of its descriptors that are ready.
unfoldable pub select_rset : ℕ → Pass → SelectState → FdSet
select_rset sockfd p s fd =
    fd_put sockfd (if s.stdineof then s.rset else fd_put 0 s.rset) fd
    && (if fd == sockfd then p.sock_ready else p.stdin_ready)

unfoldable pub select_cli_pass : ℕ → Pass → SelectState → Step SelectState
unfolding read_sock select_stdin
select_cli_pass sockfd p s =
    let rset : FdSet = select_rset sockfd p s in
    let first : List Act × Status =
      if rset sockfd then read_sock p.sock_read s.stdineof else ([], going) in
    elim first.1 [
      | going ↦
          if rset 0 then select_stdin sockfd p.stdin_read s.stdineof rset first.0 else record {
            state = record { stdineof = s.stdineof; rset = rset };
            acts = first.0;
            status = going;
          }
      | ended ↦ record { state = s; acts = first.0; status = ended }
    ]

-- main of d3_select_echo_client.cpp, with str_cli from its start.
unfoldable pub select_main : List Pass → ℕ → Option ℕ → Bool → Main
select_main passes = client_main (λ sockfd. run_client (select_cli_pass sockfd) passes start)
  where
    start : SelectState
    start = record { stdineof = false; rset = fd_zero }
