-- ===== src/SyncQueue/Order.antt =====
-- condition_variable: any number of threads that put into one of the queues and take from it.
use cpp_example.Common.{
  ℕ, ◌≤◌, ◌≡◌, refl, sym, ap, ◌∙◌, List, [], ◌∷◌, ◌++◌, length, append_assoc, arith, if◌then◌else◌,
  Bool-cases, inl, inr,
}
use cpp_example.SyncQueue.Waiting.{Called, waits, returns}
use cpp_example.SyncQueue.Bounded
use cpp_example.SyncQueue.Bounded.{SyncQueue, IsWithin}
use cpp_example.SyncQueue.Simple
use cpp_example.SyncQueue.Channel.{Fifo, bounded_fifo, simple_fifo}

-- A thread calls Put or Take, for the first time or after a wait, or a wait ends unnotified. The
-- first number is the thread, the second the choice of its notification.
pub data Event (A : Type 0) : Type 0 where
  puts : ℕ → ℕ → A → Event A
  takes : ℕ → ℕ → Event A
  wakes : ℕ → Event A

module _ {A : Type 0} (f : Fifo A) where
  open f use {
    Q, put, take, wake_up, is_waiting, contents, put_adds, put_waits, take_removes, take_waits,
    wake_up_keeps,
  }

  -- A queue with the values that were put into it and taken from it, in order.
  pub record Traffic : Type 0 where
    pub queue : Q
    pub produced : List A
    pub consumed : List A

  abbrev after_put : A → Traffic → Called (Unit {0}) Q → Traffic
  after_put x t (waits q) = record t { queue = q }
  after_put x t (returns u q) = record t { queue = q; produced = t.produced ++ x ∷ [] }

  abbrev after_take : Traffic → Called A Q → Traffic
  after_take t (waits q) = record t { queue = q }
  after_take t (returns x q) = record t { queue = q; consumed = t.consumed ++ x ∷ [] }

  -- A thread that waits does nothing.
  unfoldable pub event_step : Event A → Traffic → Traffic
  event_step (puts i k x) t = if is_waiting i t.queue then t else after_put x t (put i k x t.queue)
  event_step (takes i k) t = if is_waiting i t.queue then t else after_take t (take i k t.queue)
  event_step (wakes i) t = record t { queue = wake_up i t.queue }

  unfoldable pub run : List (Event A) → Traffic → Traffic
  run [] t = t
  run (e ∷ es) t = run es (event_step e t)

  -- What was taken, with what stands in the queue behind it, is what was put.
  abbrev pub InOrder : Traffic → Type 0
  InOrder t = t.consumed ++ contents t.queue ≡ t.produced

  snoc_regroup : (a b c d : List A) → a ++ b ≡ c → a ++ (b ++ d) ≡ c ++ d
  snoc_regroup a b c d e = sym (append_assoc a b d) ∙ ap (λ l. l ++ d) e

  event_step-InOrder : (e : Event A) (t : Traffic) → InOrder t → InOrder (event_step e t)
  unfolding event_step
  event_step-InOrder (wakes i) t h = ap (λ l. t.consumed ++ l) (wake_up_keeps i t.queue) ∙ h
  event_step-InOrder (puts i k x) t h = elim (Bool-cases (is_waiting i t.queue)) [
    | inl asleep ↦ rw asleep h
    | inr awake ↦ rw awake (by_call (put i k x t.queue) refl)
  ]
    where
      by_call : (c : Called (Unit {0}) Q) → put i k x t.queue ≡ c → InOrder (after_put x t c)
      by_call (waits q) e = ap (λ l. t.consumed ++ l) (put_waits i k x t.queue q e) ∙ h
      by_call (returns u q) e =
          ap (λ l. t.consumed ++ l) (put_adds i k x t.queue q e)
          ∙ snoc_regroup t.consumed (contents t.queue) t.produced (x ∷ []) h
  event_step-InOrder (takes i k) t h = elim (Bool-cases (is_waiting i t.queue)) [
    | inl asleep ↦ rw asleep h
    | inr awake ↦ rw awake (by_call (take i k t.queue) refl)
  ]
    where
      by_call : (c : Called A Q) → take i k t.queue ≡ c → InOrder (after_take t c)
      by_call (waits q) e = ap (λ l. t.consumed ++ l) (take_waits i k t.queue q e) ∙ h
      by_call (returns x q) e =
          append_assoc t.consumed (x ∷ []) (contents q)
          ∙ ap (λ l. t.consumed ++ l) (sym (take_removes i k x t.queue q e))
          ∙ h

  run-InOrder : (es : List (Event A)) (t : Traffic) → InOrder t → InOrder (run es t)
  unfolding run
  run-InOrder [] t h = h
  run-InOrder (e ∷ es) t h = run-InOrder es (event_step e t) (event_step-InOrder e t h)

-- The threads on a new queue of each class.
unfoldable pub bounded_run : {A : Type 0} → ℕ → List (Event A) → Traffic (bounded_fifo A)
bounded_run {A} n es =
    run (bounded_fifo A) es (record { queue = Bounded.new_queue n; produced = []; consumed = [] })

unfoldable pub simple_run : {A : Type 0} → List (Event A) → Traffic (simple_fifo A)
simple_run {A} es =
    run (simple_fifo A) es (record { queue = Simple.new_queue; produced = []; consumed = [] })

module _ {A : Type 0} (n : ℕ) where
  event_step-IsWithin :
      (e : Event A) (t : Traffic (bounded_fifo A))
      → IsWithin n t.queue
      → IsWithin n (event_step (bounded_fifo A) e t).queue
  unfolding event_step Bounded.wake_up
  event_step-IsWithin (wakes i) t h = h
  event_step-IsWithin (puts i k x) t h = elim (Bool-cases (Bounded.is_waiting i t.queue)) [
    | inl asleep ↦ rw asleep h
    | inr awake ↦ rw awake (by_call (Bounded.put i k x t.queue) refl)
  ]
    where
      by_call :
          (c : Called (Unit {0}) (SyncQueue A))
          → Bounded.put i k x t.queue ≡ c
          → IsWithin n (after_put (bounded_fifo A) x t c).queue
      by_call (waits q) e = Bounded.put_waits-IsWithin n i k x t.queue q h e
      by_call (returns u q) e = Bounded.put-IsWithin n i k x t.queue q h e
  event_step-IsWithin (takes i k) t h = elim (Bool-cases (Bounded.is_waiting i t.queue)) [
    | inl asleep ↦ rw asleep h
    | inr awake ↦ rw awake (by_call (Bounded.take i k t.queue) refl)
  ]
    where
      by_call :
          (c : Called A (SyncQueue A))
          → Bounded.take i k t.queue ≡ c
          → IsWithin n (after_take (bounded_fifo A) t c).queue
      by_call (waits q) e = Bounded.take_waits-IsWithin n i k t.queue q h e
      by_call (returns x q) e = Bounded.take-IsWithin n i k x t.queue q h e

  run-IsWithin :
      (es : List (Event A)) (t : Traffic (bounded_fifo A))
      → IsWithin n t.queue
      → IsWithin n (run (bounded_fifo A) es t).queue
  unfolding run
  run-IsWithin [] t h = h
  run-IsWithin (e ∷ es) t h =
      run-IsWithin es (event_step (bounded_fifo A) e t) (event_step-IsWithin e t h)

-- Any number of threads that call Put and Take in any interleaving, wait, and are woken with or
-- without a notification, on a new SyncQueue with a bound and on a new SimpleSyncQueue: with both,
-- what was taken, followed by what stands in the queue, is what was put, in order, so that nothing
-- is lost, repeated or overtaken; and the SyncQueue never holds more values than its bound.
pub queues_in_order :
    {A : Type 0} (n : ℕ) (es : List (Event A))
    → ((bounded_run n es).consumed ++ (bounded_run n es).queue.queue ≡ (bounded_run n es).produced)
      × (length (bounded_run n es).queue.queue ≤ n)
      × ((simple_run es).consumed ++ (simple_run es).queue.queue ≡ (simple_run es).produced)
unfolding bounded_run simple_run Bounded.new_queue Simple.new_queue
queues_in_order {A} n es = (
  run-InOrder (bounded_fifo A) es _ refl,
  (run-IsWithin n es _ (refl, omega arith)).1,
  run-InOrder (simple_fifo A) es _ refl,
)
