-- ===== src/Locks/Guard.antt =====
-- mutex/demo4_lock_guard.cpp: threads that print under a lock_guard, some of which throw. Thread `i`
-- has the id `i + 1`.
use cpp_example.Common.{
  ℕ, ◌+◌, ◌%◌, ◌==◌, Option, none, some, List, [], ◌∷◌, ◌++◌, get_elem?, set, replicate,
  if◌then◌else◌,
}

pub data Line : Type 0 where
  is_even : ℕ → Line
  exception_caught : Line

-- What a call ends with: its line, or the logic_error that it throws.
pub data Printed : Type 0 where
  printed : Line → Printed
  thrown : Printed

unfoldable pub print_even : ℕ → Printed
print_even x = if x % 2 == 0 then printed (is_even x) else thrown

-- Where a thread is in print_thread_id: before the lock, under it, in the handler, or done.
pub data Place : Type 0 where
  locking inside handling finished : Place

pub record Shared : Type 0 where
  pub mtx : Option ℕ
  pub places : List Place
  pub lines : List Line

-- The guard gives the lock back on both ways out of the block, before the handler runs.
unfoldable pub leave_block : ℕ → Printed → Shared → Shared
leave_block i (printed l) s = record {
  mtx = none;
  places = set s.places i finished;
  lines = s.lines ++ l ∷ [];
}
leave_block i thrown s = record s { mtx = none; places = set s.places i handling }

unfoldable pub place_step : ℕ → Place → Shared → Option Shared
place_step i locking s = elim s.mtx [
  | some holder ↦ none
  | none ↦ some (record s { mtx = some i; places = set s.places i inside })
]
place_step i inside s = some (leave_block i (print_even (i + 1)) s)
place_step i handling s =
    some (record s { places = set s.places i finished; lines = s.lines ++ exception_caught ∷ [] })
place_step i finished s = none

unfoldable pub step : ℕ → Shared → Option Shared
step i s = elim (get_elem? s.places i) [ none ↦ none | some p ↦ place_step i p s ]

unfoldable pub run : List ℕ → Shared → Option Shared
run [] s = some s
run (i ∷ is) s = elim (step i s) [ none ↦ none | some s' ↦ run is s' ]

unfoldable pub start : ℕ → Shared
start n = record { mtx = none; places = replicate n locking; lines = [] }
