-- ===== src/SyncQueue/Tests.antt =====
-- condition_variable: the theorems on short runs of threads and at a state of the demonstration.
use cpp_example.Common.{ℕ, ◌≡◌, ◌≤◌, ◌<◌, ◌+◌, refl, List, [], ◌∷◌, ◌++◌, length, arith, ◌⊎◌}
use cpp_example.SyncQueue.Waiting.{notify_one}
use cpp_example.SyncQueue.Bounded
use cpp_example.SyncQueue.Order.{
  Event, puts, takes, event_step, run, bounded_run, simple_run, queues_in_order,
}
use cpp_example.SyncQueue.Demo.{Demo, start_demo, Step, put_datas, take_waits, here, then_step}
use cpp_example.SyncQueue.Demo.Running.{numbers}
use cpp_example.SyncQueue.Demo.Progress.{rounds_left, steps_left, demo_never_stuck}

-- Thread 2 waits; thread 1 puts 7 and 8, has to wait at the bound 2, and 2 takes 7.
abbrev events : List (Event ℕ)
events = takes 2 0 ∷ puts 1 0 7 ∷ puts 1 0 8 ∷ puts 1 0 9 ∷ takes 2 0 ∷ []

events_bounded : (bounded_run 2 events).consumed ≡ 7 ∷ []
unfolding bounded_run run event_step Bounded.put Bounded.take Bounded.is_full Bounded.is_waiting
    Bounded.new_queue notify_one
events_bounded = refl

queues_in_order_example :
    ((bounded_run 2 events).consumed ++ (bounded_run 2 events).queue.queue
      ≡ (bounded_run 2 events).produced)
    × (length (bounded_run 2 events).queue.queue ≤ 2)
    × ((simple_run events).consumed ++ (simple_run events).queue.queue
        ≡ (simple_run events).produced)
queues_in_order_example = queues_in_order 2 events

-- The consumer comes first and waits, and is notified of the first value.
abbrev consumer_waits : Demo
consumer_waits = record {
  sync_queue = record { queue = []; max_size = 5; not_empty = 2 ∷ []; not_full = [] };
  sent = 0;
  received = 0;
  printed = [];
}

abbrev first_sent : Demo
first_sent = record {
  sync_queue = record { queue = 0 ∷ []; max_size = 5; not_empty = []; not_full = [] };
  sent = 1;
  received = 0;
  printed = [];
}

wait_step : Step start_demo consumer_waits
unfolding start_demo Bounded.take Bounded.new_queue
wait_step = take_waits 0 (omega arith) refl refl

first_step : Step consumer_waits first_sent
unfolding Bounded.put Bounded.is_full notify_one
first_step = put_datas 0 (omega arith) refl refl

demo_never_stuck_example :
    (((e : Demo) × Step first_sent e × (rounds_left e + 1 ≡ rounds_left first_sent))
      ⊎ ((first_sent.sent ≡ 20) × (first_sent.received ≡ 20) × (first_sent.printed ≡ numbers 20)))
    × ((e : Demo) → Step first_sent e → steps_left e < steps_left first_sent)
demo_never_stuck_example = demo_never_stuck (then_step (then_step here wait_step) first_step)
