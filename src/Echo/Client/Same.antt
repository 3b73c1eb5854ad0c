-- ===== src/Echo/Client/Same.antt =====
-- network/echo: the three clients that wait for both descriptors behave alike.
use cpp_example.Common.{ℕ, ◌≡◌, ◌≢◌, refl, true, false, List, [], ◌∷◌, arith, if◌then◌else◌}
use cpp_example.Echo.Client.{Pass, run_client}
use cpp_example.Echo.Client.Select.{SelectState, select_rset, select_cli_pass}
use cpp_example.Echo.Client.Poll.{PollState, poll_cli_pass}

-- The two clients have seen as much of the input; select's set holds no closed input.
pub record IsSame (s : SelectState) (t : PollState) : Type 0 where
  pub eof : s.stdineof ≡ t.stdineof
  pub asks : t.stdin_polled ≡ (if t.stdineof then false else true)
  pub cleared : s.stdineof ≡ true → s.rset 0 ≡ false

select_rset-sock :
    (sockfd : ℕ) (p : Pass) (s : SelectState) → select_rset sockfd p s sockfd ≡ p.sock_ready
unfolding select_rset
select_rset-sock sockfd p s = ground arith

select_rset-stdin :
    (sockfd : ℕ) (p : Pass) (s : SelectState)
    → sockfd ≢ 0
    → (s.stdineof ≡ true → s.rset 0 ≡ false)
    → select_rset sockfd p s 0 ≡ (if s.stdineof then false else p.stdin_ready)
unfolding select_rset
select_rset-stdin sockfd p s ne clear = ground arith

IsSame-pass :
    (sockfd : ℕ) (p : Pass) (s : SelectState) (t : PollState)
    → sockfd ≢ 0
    → IsSame s t
    → ((select_cli_pass sockfd p s).acts ≡ (poll_cli_pass sockfd p t).acts)
      × ((select_cli_pass sockfd p s).status ≡ (poll_cli_pass sockfd p t).status)
      × IsSame (select_cli_pass sockfd p s).state (poll_cli_pass sockfd p t).state
unfolding select_cli_pass poll_cli_pass
IsSame-pass sockfd p s t ne h =
    ground (arith, select_rset-sock sockfd p s, select_rset-stdin sockfd p s ne h.cleared)

-- From states that have seen as much of the input, on a connection other than descriptor 0 and on
-- the same replies of the system, the select client and the poll client write, print and shut
-- down the same, in the same order, and end alike, however many passes they make.
pub select_cli-poll_cli :
    (sockfd : ℕ) (ps : List Pass) (s : SelectState) (t : PollState)
    → sockfd ≢ 0
    → IsSame s t
    → run_client (select_cli_pass sockfd) ps s ≡ run_client (poll_cli_pass sockfd) ps t
unfolding run_client
select_cli-poll_cli sockfd [] s t ne h = refl
select_cli-poll_cli sockfd (p ∷ ps) s t ne h =
    let (acts, status, after) = IsSame-pass sockfd p s t ne h in
    ground (
      arith,
      acts,
      status,
      select_cli-poll_cli sockfd ps (select_cli_pass sockfd p s).state
          (poll_cli_pass sockfd p t).state ne after,
    )
