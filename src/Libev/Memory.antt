-- ===== src/Libev/Memory.antt =====
-- libev: the heap of the programs, by addresses, with the blocks that they allocate.
use cpp_example.Common.{ℕ, ◌==◌, Option, none, some, List, if◌then◌else◌}
use cpp_example.Common.Outcome.{Outcome, done, overrun}

-- What a watcher waits for.
pub data Interest : Type 0 where
  reads writes : Interest

-- The fields of struct ev_io that the programs use; `data` is the address of an io_buf.
pub record Watcher : Type 0 where
  pub fd : ℕ
  pub events : Interest
  pub buf : ℕ

-- struct io_buf.
pub record IoBuf : Type 0 where
  pub chars : ℕ
  pub len : ℕ

-- A block of the heap; `raw` is one that nothing was written to.
pub data Block : Type 0 where
  raw : Block
  a_watcher : Watcher → Block
  an_io_buf : IoBuf → Block
  some_chars : List ℕ → Block

abbrev pub Heap : Type 0
Heap = ℕ → Option Block

abbrev pub store : ℕ → Option Block → Heap → Heap
store a x h b = if b == a then x else h b

-- `malloc`: `none` is the null pointer.
unfoldable pub malloc : Option ℕ → Heap → Heap
malloc none h = h
malloc (some a) h = store a (some raw) h

-- An access through a null or dangling pointer is outside every block.
unfoldable pub watcher_at : ℕ → Heap → Outcome Watcher
watcher_at a h = elim (h a) [ some (a_watcher w) ↦ done w | _ ↦ overrun ]

unfoldable pub io_buf_at : ℕ → Heap → Outcome IoBuf
io_buf_at a h = elim (h a) [ some (an_io_buf b) ↦ done b | _ ↦ overrun ]

unfoldable pub chars_at : ℕ → Heap → Outcome (List ℕ)
chars_at a h = elim (h a) [ some (some_chars c) ↦ done c | _ ↦ overrun ]
