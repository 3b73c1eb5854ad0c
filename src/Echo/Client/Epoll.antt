-- ===== src/Echo/Client/Epoll.antt =====
-- network/echo/d5_epoll_echo_client.cpp: str_cli.
use cpp_example.Common.{
  ℕ, ◌==◌, ◌&&◌, Bool, true, false, List, [], ◌∷◌, ◌++◌, if◌then◌else◌, Option,
}
use cpp_example.Echo.Sys.{Got, got, Act, write, shutdown_wr, unwatch}
use cpp_example.Echo.Client.{Status, going, Step, Main, client_main, run_client}
use cpp_example.Echo.Client.Select.{read_sock}

pub record EpollState : Type 0 where
  pub stdineof : Bool
  pub stdin_watched : Bool

pub record Event : Type 0 where
  pub fd : ℕ
  pub readable : Bool
  pub read : Got

unfoldable pub epoll_stdin : ℕ → Got → EpollState → Step EpollState
epoll_stdin sockfd (got (b ∷ bs)) s = record {
  state = s;
  acts = write sockfd (b ∷ bs) ∷ [];
  status = going;
}
epoll_stdin sockfd _ s = record {
  state = record { stdineof = true; stdin_watched = false };
  acts = unwatch 0 ∷ shutdown_wr sockfd ∷ [];
  status = going;
}

-- One event: the two tests of the body, of which at most one holds as `sockfd` is not 0.
unfoldable pub epoll_cli_event : ℕ → Event → EpollState → Step EpollState
unfolding read_sock epoll_stdin
epoll_cli_event sockfd e s =
    let first : List Act × Status =
      if (e.fd == sockfd) && e.readable then read_sock e.read s.stdineof else ([], going) in
    elim first.1 [
      | going ↦
          if (e.fd == 0) && e.readable
          then (let t = epoll_stdin sockfd e.read s in record t { acts = first.0 ++ t.acts })
          else record { state = s; acts = first.0; status = going }
      | ended ↦ record { state = s; acts = first.0; status = ended }
    ]

-- The loop over the events of one epoll_wait.
unfoldable pub epoll_cli_pass : ℕ → List Event → EpollState → Step EpollState
epoll_cli_pass sockfd [] s = record { state = s; acts = []; status = going }
epoll_cli_pass sockfd (e ∷ es) s =
    let t = epoll_cli_event sockfd e s in
    elim t.status [
      | going ↦ let u = epoll_cli_pass sockfd es t.state in record u { acts = t.acts ++ u.acts }
      | ended ↦ t
    ]

-- main of d5_epoll_echo_client.cpp, over the events of each epoll_wait.
unfoldable pub epoll_main : List (List Event) → ℕ → Option ℕ → Bool → Main
epoll_main passes = client_main (λ sockfd. run_client (epoll_cli_pass sockfd) passes start)
  where
    start : EpollState
    start = record { stdineof = false; stdin_watched = true }
