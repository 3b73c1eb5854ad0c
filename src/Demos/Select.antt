-- ===== src/Demos/Select.antt =====
-- network/demo2_select.cpp: one buffer and one `ret` for all clients.
use cpp_example.Common.{
  ℕ, zero, suc, ◌+◌, ◌-◌, ltb, Bool, true, false, Option, none, some, List, [], ◌∷◌, ◌++◌, length,
  replicate, if◌then◌else◌,
}
use cpp_example.Common.Outcome.{Outcome, done, overrun, ◌>>=◌, read_at, write_at, printed_string}
use cpp_example.Echo.Sys.{
  Got, got, failed, Act, write, close, print, FdSet, fd_zero, fd_put, fd_clr, Setup, fails, serves,
}

abbrev pub buffer_length : ℕ
buffer_length = 128

-- The locals of main; `ret` is `none` for -1.
pub record Server : Type 0 where
  pub rfds_in : FdSet
  pub wfds_in : FdSet
  pub lastfd : ℕ
  pub buffer : List ℕ
  pub ret : Option ℕ

unfoldable pub select_start : Option ℕ → Bool → Setup Server
select_start none bound = fails 1
select_start (some listenfd) false = fails 2
select_start (some listenfd) true = serves listenfd (record {
  rfds_in = fd_put listenfd fd_zero;
  wfds_in = fd_zero;
  lastfd = listenfd;
  buffer = replicate buffer_length 0;
  ret = some 0;
})

-- What the calls of one pass return: the sets of select, or none for -1, which is not looked at;
-- accept; and for each descriptor recv and send.
pub record Pass : Type 0 where
  pub selected : Option (FdSet × FdSet)
  pub accepted : Option ℕ
  pub received : ℕ → Got
  pub sent : ℕ → Option ℕ

-- FD_SET of -1 is outside the set.
unfoldable pub accept_client : Option ℕ → Server → Outcome Server
accept_client none s = overrun
accept_client (some clientfd) s = done (record s {
  rfds_in = fd_put clientfd s.rfds_in;
  lastfd = if ltb s.lastfd clientfd then clientfd else s.lastfd;
})

unfoldable pub read_client : ℕ → Got → Server → Outcome (Server × List Act)
read_client cur_fd (failed e) s = done (record s { ret = none }, [])
read_client cur_fd (got []) s =
    done (record s { ret = some 0; rfds_in = fd_clr cur_fd s.rfds_in }, close cur_fd ∷ [])
read_client cur_fd (got (b ∷ bs)) s = do
  buffer ← write_at s.buffer 0 (b ∷ bs)
  line ← printed_string buffer
  done (
    record s { ret = some (length (b ∷ bs)); buffer = buffer; wfds_in = fd_put cur_fd s.wfds_in },
    print line ∷ [],
  )

-- A send of -1 bytes reads beyond the buffer.
unfoldable pub write_client : ℕ → Option ℕ → Server → Outcome (Server × List Act)
write_client cur_fd sent s = elim s.ret [
  | none ↦ overrun
  | some n ↦ read_at s.buffer 0 n >>= λ message. done (
    record s { ret = sent; wfds_in = fd_clr cur_fd s.wfds_in; rfds_in = fd_put cur_fd s.rfds_in },
    write cur_fd message ∷ [],
  )
]

unfoldable pub serve_fd : FdSet × FdSet → Pass → ℕ → Server → Outcome (Server × List Act)
serve_fd out p cur_fd s =
    if out.0 cur_fd
    then read_client cur_fd (p.received cur_fd) s
    else (if out.1 cur_fd then write_client cur_fd (p.sent cur_fd) s else done (s, []))

-- The loop over `count` descriptors from `cur_fd` on.
unfoldable pub walk : FdSet × FdSet → Pass → ℕ → ℕ → Server → Outcome (Server × List Act)
walk out p zero cur_fd s = done (s, [])
walk out p (suc count) cur_fd s = serve_fd out p cur_fd s >>= λ first.
    walk out p count (cur_fd + 1) first.0 >>= λ rest. done (rest.0, first.1 ++ rest.1)

unfoldable pub select_pass : ℕ → Pass → Server → Outcome (Server × List Act)
select_pass listenfd p s =
    let out : FdSet × FdSet = elim p.selected [
      | none ↦ (s.rfds_in, s.wfds_in)
      | some sets ↦ sets
    ] in
    (if out.0 listenfd then accept_client p.accepted s else done s) >>= λ s1.
    walk out p (s1.lastfd - listenfd) (listenfd + 1) s1
