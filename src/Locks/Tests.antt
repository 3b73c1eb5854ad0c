-- ===== src/Locks/Tests.antt =====
-- mutex: the theorems at short interleavings.
use cpp_example.Common.{ℕ, ◌≤◌, ◌≡◌, ◌⊎◌, refl, some, none, [], ◌∷◌}
use cpp_example.Locks.Counter
use cpp_example.Locks.Counter.{step, thread_step, lock_step, run, start}
use cpp_example.Locks.Held.{made}
use cpp_example.Locks.Counted.{counter_complete}
use cpp_example.Locks.Guard
use cpp_example.Locks.Guarded.{occurrences, lines_from}
use cpp_example.Locks.Released.{guard_released}
use cpp_example.Locks.Queue
use cpp_example.Locks.Queue.{
  Pass, fun1, fun2, pass, passes, fun1_pass, fun2_pass, pop_back, reversed, numbers_below,
  numbers_in_order,
}

-- Two threads of one pass each, the first of which is within the lock.
abbrev entered : Counter.Shared
entered = record {
  counter = 0;
  mtx = some 0;
  threads =
      record { place = Counter.writing 0; passes = 0 }
      ∷ record { place = Counter.locking; passes = 0 }
      ∷ [];
}

counter_complete_example :
    (entered.counter ≡ made entered)
    × (2 ≤ 8)
    × (((i : ℕ) × (s : Counter.Shared) × (step 1 i entered ≡ some s)) ⊎ (entered.counter ≡ 2))
unfolding start run step thread_step lock_step
counter_complete_example = counter_complete 2 1 (0 ∷ 0 ∷ []) entered refl

abbrev one_waits : Queue.Shared
one_waits = record { q = 1 ∷ []; count = 2; printed = 0 ∷ [] }

numbers_in_order_example :
    (0 ∷ 1 ∷ [] ≡ numbers_below 2) × (pass fun2 one_waits ≡ none → 0 ∷ [] ≡ numbers_below 2)
unfolding passes pass fun2_pass pop_back fun1_pass
numbers_in_order_example = numbers_in_order (fun1 ∷ fun1 ∷ fun2 ∷ []) one_waits refl

-- Two threads, of the ids 1, which has thrown, and 2.
abbrev one_done : Guard.Shared
one_done = record {
  mtx = none;
  places = Guard.finished ∷ Guard.finished ∷ [];
  lines = Guard.exception_caught ∷ Guard.is_even 2 ∷ [];
}

guard_released_example :
    (5 ≤ 6)
    × (((i : ℕ) × (s : Guard.Shared) × (Guard.step i one_done ≡ some s))
        ⊎ ((one_done.mtx ≡ none)
            × ((l : Guard.Line) → occurrences l one_done.lines ≡ occurrences l (lines_from 0 2))))
unfolding Guard.run Guard.start Guard.step Guard.place_step Guard.leave_block Guard.print_even
guard_released_example = guard_released 2 (0 ∷ 0 ∷ 0 ∷ 1 ∷ 1 ∷ []) one_done refl
