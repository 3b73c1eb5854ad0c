-- ===== src/Locks/Counter.antt =====
-- mutex/demo1_mutex.cpp: `increases_10k` in any number of threads and any interleaving. `++counter`
-- on the volatile int is a read and a write.
use cpp_example.Common.{
  ℕ, suc, ◌+◌, ◌==◌, Option, none, some, List, [], ◌∷◌, get_elem?, set, replicate, if◌then◌else◌,
}

-- Where a thread is in a pass of its loop; `writing` holds the value that it read.
pub data Place : Type 0 where
  locking : Place
  reading : Place
  writing : ℕ → Place
  unlocking : Place

-- `passes` is the loop's `i`; it is counted when the counter was written.
pub record Thread : Type 0 where
  pub place : Place
  pub passes : ℕ

-- `mtx` is held by a thread or by none.
pub record Shared : Type 0 where
  pub counter : ℕ
  pub mtx : Option ℕ
  pub threads : List Thread

abbrev pub to_lock : ℕ → Thread
to_lock n = record { place = locking; passes = n }

-- The loop's test comes before the lock; a lock that is held is waited for.
unfoldable pub lock_step : ℕ → ℕ → ℕ → Shared → Option Shared
lock_step rounds i passes s = if passes == rounds then none else elim s.mtx [
  | some holder ↦ none
  | none ↦ some (record s {
    mtx = some i;
    threads = set s.threads i (record { place = reading; passes = passes });
  })
]

-- One step of thread `i`, if it has one.
unfoldable pub thread_step : ℕ → ℕ → Thread → Shared → Option Shared
thread_step rounds i t s = elim t.place [
  | locking ↦ lock_step rounds i t.passes s
  | reading ↦ some (record s { threads = set s.threads i (record t { place = writing s.counter }) })
  | writing v ↦ some (record s {
    counter = v + 1;
    threads = set s.threads i (record { place = unlocking; passes = suc t.passes });
  })
  | unlocking ↦
      some (record s { mtx = none; threads = set s.threads i (record t { place = locking }) })
]

unfoldable pub step : ℕ → ℕ → Shared → Option Shared
step rounds i s = elim (get_elem? s.threads i) [ none ↦ none | some t ↦ thread_step rounds i t s ]

-- The threads take steps in the order of a list.
unfoldable pub run : ℕ → List ℕ → Shared → Option Shared
run rounds [] s = some s
run rounds (i ∷ is) s = elim (step rounds i s) [ none ↦ none | some s' ↦ run rounds is s' ]

-- main starts the threads one by one; one that is not there yet is one that has taken no step.
unfoldable pub start : ℕ → Shared
start n = record { counter = 0; mtx = none; threads = replicate n (to_lock 0) }
