-- ===== src/SyncQueue/Channel.antt =====
-- condition_variable: what both queues promise.
use cpp_example.Common.{ℕ, ◌≡◌, refl, Bool, List, [], ◌∷◌, ◌++◌}
use cpp_example.SyncQueue.Waiting.{Called, waits, returns}
use cpp_example.SyncQueue.Bounded.{SyncQueue}
use cpp_example.SyncQueue.Bounded
use cpp_example.SyncQueue.Simple.{SimpleSyncQueue}
use cpp_example.SyncQueue.Simple

-- A queue of values, with its contents from the oldest on, and the threads that call it by number;
-- the second number of a call is the choice of its notification.
pub record Fifo (A : Type 0) : Type 1 where
  pub Q : Type 0
  pub put : ℕ → ℕ → A → Q → Called (Unit {0}) Q
  pub take : ℕ → ℕ → Q → Called A Q
  pub wake_up : ℕ → Q → Q
  pub is_waiting : ℕ → Q → Bool
  pub contents : Q → List A
  pub put_adds :
      (t k : ℕ) (x : A) (q q' : Q)
      → put t k x q ≡ returns tt q'
      → contents q' ≡ contents q ++ x ∷ []
  pub put_waits : (t k : ℕ) (x : A) (q q' : Q) → put t k x q ≡ waits q' → contents q' ≡ contents q
  pub take_removes :
      (t k : ℕ) (x : A) (q q' : Q) → take t k q ≡ returns x q' → contents q ≡ x ∷ contents q'
  pub take_waits : (t k : ℕ) (q q' : Q) → take t k q ≡ waits q' → contents q' ≡ contents q
  pub wake_up_keeps : (t : ℕ) (q : Q) → contents (wake_up t q) ≡ contents q

pub never_waits : {A : Type 0} (u : Unit {0}) (p q : A) {P : Type 0} → returns u p ≡ waits q → P
never_waits u p q e = cc

pub bounded_wake_up : {A : Type 0} (t : ℕ) (q : SyncQueue A) → (Bounded.wake_up t q).queue ≡ q.queue
unfolding Bounded.wake_up
bounded_wake_up t q = refl

pub simple_wake_up :
    {A : Type 0} (t : ℕ) (q : SimpleSyncQueue A) → (Simple.wake_up t q).queue ≡ q.queue
unfolding Simple.wake_up
simple_wake_up t q = refl

-- Both classes keep the promise.
abbrev pub bounded_fifo : (A : Type 0) → Fifo A
bounded_fifo A = record {
  Q = SyncQueue A;
  put = Bounded.put;
  take = Bounded.take;
  wake_up = Bounded.wake_up;
  is_waiting = Bounded.is_waiting;
  contents = λ q. q.queue;
  put_adds = Bounded.put_adds;
  put_waits = Bounded.put_waits;
  take_removes = Bounded.take_removes;
  take_waits = Bounded.take_waits;
  wake_up_keeps = bounded_wake_up;
}

abbrev pub simple_fifo : (A : Type 0) → Fifo A
simple_fifo A = record {
  Q = SimpleSyncQueue A;
  put = λ t k x q. returns tt (Simple.put k x q);
  take = λ t k q. Simple.take t q;
  wake_up = Simple.wake_up;
  is_waiting = Simple.is_waiting;
  contents = λ q. q.queue;
  put_adds = λ t k x q q' e. Simple.put_adds k x q q' e;
  put_waits = λ t k x q q' e. never_waits tt (Simple.put k x q) q' e;
  take_removes = λ t k x q q' e. Simple.take_removes t x q q' e;
  take_waits = λ t k q q' e. Simple.take_waits t q q' e;
  wake_up_keeps = simple_wake_up;
}
