-- ===== src/C1000k/Reactor.antt =====
-- network/demo4_c1000k_server.cpp: sock_item, eventblock, reactor, reactor_resize and
-- reactor_lookup. The list of blocks is a list; the callbacks of an item are never set.
use cpp_example.Common.{
  ℕ, zero, suc, ◌+◌, ◌/◌, ◌%◌, Bool, true, false, Option, none, some, List, [], ◌∷◌, ◌++◌, leb,
  if◌then◌else◌, get_elem?, replicate,
}
use cpp_example.Common.Outcome.{Outcome, done, overrun, diverged, ◌>>=◌}

abbrev pub item_length : ℕ
item_length = 1024

-- A pointer to a buffer; what `calloc` and `free` leave.
pub data Buffer : Type 0 where
  null : Buffer
  freed : Buffer
  bytes : List ℕ → Buffer

pub record SockItem : Type 0 where
  pub fd : ℕ
  pub rbuf : Buffer
  pub rlen : ℕ
  pub wbuf : Buffer
  pub wlen : ℕ
  pub event : ℕ

abbrev pub EventBlock : Type 0
EventBlock = List SockItem

pub record Reactor : Type 0 where
  pub epoll_fd : ℕ
  pub block_count : ℕ
  pub eventblocks : List EventBlock

abbrev pub zeroed_item : SockItem
zeroed_item = record { fd = 0; rbuf = null; rlen = 0; wbuf = null; wlen = 0; event = 0 }

-- The results 0, -4 and -5.
pub data Resized : Type 0 where
  grown : Resized
  no_items : Resized
  no_block : Resized

-- Whether each of the two calls of `malloc` returns memory.
pub record Mallocs : Type 0 where
  pub items : Bool
  pub block : Bool

unfoldable pub reactor_resize : Mallocs → Reactor → Resized × Reactor
reactor_resize m r = elim m.items [
  | false ↦ (no_items, r)
  | true ↦ elim m.block [
    | false ↦ (no_block, r)
    | true ↦ (
      grown,
      record r {
        block_count = r.block_count + 1;
        eventblocks = r.eventblocks ++ replicate item_length zeroed_item ∷ [];
      },
    )
  ]
]

-- `while (block_idx >= r->block_count) reactor_resize(r)`: the results are not looked at, and the
-- list holds the replies of `malloc` in the calls to come.
unfoldable pub grow : List Mallocs → ℕ → Reactor → Outcome Reactor
grow [] block_idx r = if leb r.block_count block_idx then diverged else done r
grow (m ∷ ms) block_idx r =
    let rest = grow ms block_idx (reactor_resize m r).1 in
    if leb r.block_count block_idx then rest else done r

-- Where an item stands: its block and its place in it.
pub record Place : Type 0 where
  pub block : ℕ
  pub index : ℕ

-- `none` is the null result; a null `cur` is an access outside the list.
unfoldable pub reactor_lookup : List Mallocs → ℕ → Reactor → Outcome (Option Place × Reactor)
reactor_lookup ms zero r = done (none, r)
reactor_lookup ms (suc n) r = grow ms (suc n / item_length) r >>= λ r'.
    elim (get_elem? r'.eventblocks (suc n / item_length)) [
      | none ↦ overrun
      | some items ↦
          done (some (record { block = suc n / item_length; index = suc n % item_length }), r')
    ]
