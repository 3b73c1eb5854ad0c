-- ===== src/Echo/Tests.antt =====
-- network/echo: the theorems at concrete servers, passes and replies.
use cpp_example.Common.{
  Fresh, ℕ, ◌<◌, ◌≤◌, ◌⊎◌, ◌≡◌, ◌≢◌, refl, true, false, none, some, List, [], ◌∷◌, ◌++◌, replicate,
  arith, ◌==◌, length, contains,
}
use cpp_example.Common.Outcome.{done, overrun}
use cpp_example.Echo.Sys.{
  eagain, writes_of, closes_of, got, failed, Act, write, close, fd_zero, fd_put, next, exits,
  out_of_bounds, accepted, refused,
}
use cpp_example.Echo.Slots.{find_slot}
use cpp_example.Echo.Slots.Order.{fds_of}
use cpp_example.Echo.Select
use cpp_example.Echo.Select.{select_setup, select_pass}
use cpp_example.Echo.Select.Invariant.{IsTracked, select_setup-IsTracked, select_pass-IsTracked}
use cpp_example.Echo.Select.Service.{select_pass-answers}
use cpp_example.Echo.Poll
use cpp_example.Echo.Poll.{poll_pass}
use cpp_example.Echo.Poll.Service.{IsPacked, poll_pass-answers}
use cpp_example.Echo.Worker.{str_echo, closed}
use cpp_example.Echo.Worker.Stream.{str_echo_serves}
use cpp_example.Echo.Client
use cpp_example.Echo.Client.{run_client}
use cpp_example.Echo.Client.Select.{SelectState, select_cli_pass}
use cpp_example.Echo.Client.Poll.{PollState, poll_cli_pass}
use cpp_example.Echo.Client.Alike.{polling, watching, watched_pass, visible, clients_alike}
use cpp_example.Echo.Client.Same.{IsSame}

abbrev hi : List ℕ
hi = 104 ∷ 105 ∷ []

-- The select server on descriptor 3, without a client and with client 4.
abbrev empty_server : Select.Server
empty_server = record {
  client = replicate 256 none ++ replicate 768 none;
  allset = fd_put 3 fd_zero;
  maxfd = 3;
  used = 0;
}

abbrev one_client : Select.Server
one_client = record {
  client = some 4 ∷ (replicate 255 none ++ replicate 768 none);
  allset = fd_put 4 (fd_put 3 fd_zero);
  maxfd = 4;
  used = 1;
}

empty-IsTracked : IsTracked 3 empty_server
unfolding select_setup
empty-IsTracked =
    let (s, e, t) = select_setup-IsTracked 3 (omega arith) in
    let same : s ≡ empty_server = cc in rw (← same) t

abbrev accept_pass : Select.Pass
accept_pass = record {
  rset = fd_put 3 fd_zero;
  nready = 1;
  accept = accepted 4;
  reads = λ i. failed eagain;
}

new_client : (fd : ℕ) → accepted 4 ≡ accepted fd → Fresh fd (fds_of empty_server.client) × (fd ≢ 3)
new_client fd e = let same : 4 ≡ fd = cc in (tt, omega (arith, same))

select_pass-IsTracked_example :
    ((s : Select.Server) (acts : List Act)
      → select_pass 3 accept_pass empty_server ≡ next s acts
      → IsTracked 3 s)
    × (((fd : ℕ) → accepted 4 ≡ accepted fd → fd < 1024)
        → select_pass 3 accept_pass empty_server ≢ out_of_bounds)
    × ((fd : ℕ)
        → accept_pass.rset 3 ≡ true
        → accepted 4 ≡ accepted fd
        → 1024 ≤ fd
        → (select_pass 3 accept_pass empty_server ≡ out_of_bounds)
          ⊎ (select_pass 3 accept_pass empty_server ≡ exits []))
select_pass-IsTracked_example =
    select_pass-IsTracked 3 accept_pass empty_server empty-IsTracked new_client

abbrev echo_pass : Select.Pass
echo_pass = record {
  rset = fd_put 4 fd_zero;
  nready = 1;
  accept = refused eagain;
  reads = λ i. got hi;
}

one_client-IsTracked : IsTracked 3 one_client
unfolding select_pass Select.add_client find_slot
one_client-IsTracked =
    (select_pass-IsTracked 3 accept_pass empty_server empty-IsTracked new_client).0 one_client []
      refl

select_pass-answers_example :
    (s : Select.Server) × (select_pass 3 echo_pass one_client ≡ next s (write 4 hi ∷ []))
    × IsTracked 3 s
select_pass-answers_example =
    select_pass-answers 3 echo_pass one_client one_client-IsTracked refl (omega arith)

-- The poll server with client 4.
abbrev one_polled : Poll.Server
one_polled = record { client = some 4 ∷ replicate 4094 none; maxfd = 4; maxidx = 1 }

one_polled-IsPacked : IsPacked one_polled
one_polled-IsPacked = record { size = refl; within = omega arith; idle = refl }

abbrev poll_echo : Poll.Pass
poll_echo = record {
  revents = λ i. i == 1;
  nready = 1;
  accept = refused eagain;
  reads = λ i. got [];
}

poll_pass-answers_example :
    (s : Poll.Server) × (poll_pass poll_echo one_polled ≡ next s (close 4 ∷ []))
poll_pass-answers_example =
    poll_pass-answers poll_echo one_polled one_polled-IsPacked refl (omega arith)

str_echo_serves_example :
    ((acts : List Act) × (str_echo 4 (got hi ∷ got hi ∷ got [] ∷ got hi ∷ []) ≡ done (acts, closed))
      × (writes_of acts ≡ (4, hi) ∷ (4, hi) ∷ [])
      × (closes_of acts ≡ 4 ∷ []))
    × ((full : List ℕ)
        → length full ≡ 1024
        → contains 0 full ≡ false
        → str_echo 4 (got hi ∷ got hi ∷ got full ∷ got hi ∷ []) ≡ overrun)
str_echo_serves_example =
    str_echo_serves 4 (hi ∷ hi ∷ []) (got hi ∷ [])
      ((omega arith, omega arith), ((omega arith, omega arith), tt))

-- A line is typed and answered, then the input ends.
abbrev passes : List Client.Pass
passes =
    record { sock_ready = false; sock_read = got []; stdin_ready = true; stdin_read = got hi }
    ∷ record { sock_ready = true; sock_read = got hi; stdin_ready = true; stdin_read = got [] }
    ∷ record { sock_ready = true; sock_read = got []; stdin_ready = true; stdin_read = got [] }
    ∷ []

abbrev select_start : SelectState
select_start = record { stdineof = false; rset = fd_zero }

abbrev poll_start : PollState
poll_start = record { stdineof = false; stdin_polled = true }

IsSame-start : IsSame select_start poll_start
IsSame-start = record { eof = refl; asks = refl; cleared = λ e. cc }

clients_alike_example :
    (run_client (select_cli_pass 3) passes select_start
      ≡ run_client (poll_cli_pass 3) passes (polling false))
    × (let r = run_client (watched_pass 3) passes (watching false) in
        run_client (poll_cli_pass 3) passes (polling false) ≡ (visible r.0, r.1))
clients_alike_example = clients_alike 3 passes select_start false (omega arith) IsSame-start
