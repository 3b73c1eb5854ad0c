-- ===== src/SyncQueue/Bounded.antt =====
-- condition_variable/sync_queue_by_lock_guard.h: SyncQueue<T>. The size is a number, and a condition
-- variable is the list of the threads that wait on it.
use cpp_example.Common.{
  ℕ, ◌≤◌, ◌≡◌, ◌==◌, Bool, true, false, List, [], ◌∷◌, ◌++◌, length, arith, length-append, erase,
  contains, if◌then◌else◌,
}
use cpp_example.SyncQueue.Waiting.{Called, waits, returns, notify_one}

pub record SyncQueue (A : Type 0) : Type 0 where
  pub queue : List A
  pub max_size : ℕ
  pub not_empty : List ℕ
  pub not_full : List ℕ

module _ {A : Type 0} where
  unfoldable pub new_queue : ℕ → SyncQueue A
  new_queue max_size = record { queue = []; max_size = max_size; not_empty = []; not_full = [] }

  unfoldable pub is_full : SyncQueue A → Bool
  is_full q = length q.queue == q.max_size

  unfoldable pub is_empty : SyncQueue A → Bool
  is_empty q = elim q.queue [ [] ↦ true | x ∷ xs ↦ false ]

  -- Put by a thread, from where it has the lock; a thread that has waited comes back to the test.
  unfoldable pub put : ℕ → ℕ → A → SyncQueue A → Called (Unit {0}) (SyncQueue A)
  unfolding is_full
  put thread chosen x q =
      if is_full q
      then waits (record q { not_full = q.not_full ++ thread ∷ [] })
      else returns tt
          (record q { queue = q.queue ++ x ∷ []; not_empty = notify_one chosen q.not_empty })

  -- Take by a thread, likewise.
  unfoldable pub take : ℕ → ℕ → SyncQueue A → Called A (SyncQueue A)
  take thread chosen q = elim q.queue [
    | [] ↦ waits (record q { not_empty = q.not_empty ++ thread ∷ [] })
    | x ∷ xs ↦ returns x (record q { queue = xs; not_full = notify_one chosen q.not_full })
  ]

  -- A wait may also end without a notification.
  unfoldable pub wake_up : ℕ → SyncQueue A → SyncQueue A
  wake_up thread q = record q {
    not_empty = erase thread q.not_empty;
    not_full = erase thread q.not_full;
  }

  unfoldable pub is_waiting : ℕ → SyncQueue A → Bool
  is_waiting thread q = if contains thread q.not_empty then true else contains thread q.not_full

  unfoldable pub empty : SyncQueue A → Bool
  unfolding is_empty
  empty q = is_empty q

  unfoldable pub full : SyncQueue A → Bool
  full q = length q.queue == q.max_size

  unfoldable pub size : SyncQueue A → ℕ
  size q = length q.queue

  -- What the calls do to the values.
  pub put_adds :
      (t k : ℕ) (x : A) (q q' : SyncQueue A)
      → put t k x q ≡ returns tt q'
      → q'.queue ≡ q.queue ++ x ∷ []
  unfolding put
  put_adds t k x q q' e = ground arith

  pub put_waits :
      (t k : ℕ) (x : A) (q q' : SyncQueue A) → put t k x q ≡ waits q' → q'.queue ≡ q.queue
  unfolding put
  put_waits t k x q q' e = ground arith

  pub take_removes :
      (t k : ℕ) (x : A) (q q' : SyncQueue A) → take t k q ≡ returns x q' → q.queue ≡ x ∷ q'.queue
  unfolding take
  take_removes t k x q q' e = ground arith

  pub take_waits : (t k : ℕ) (q q' : SyncQueue A) → take t k q ≡ waits q' → q'.queue ≡ q.queue
  unfolding take
  take_waits t k q q' e = ground arith

  -- At most as many values as the bound.
  abbrev pub IsWithin : ℕ → SyncQueue A → Type 0
  IsWithin n q = (q.max_size ≡ n) × (length q.queue ≤ n)

  pub put-IsWithin :
      (n t k : ℕ) (x : A) (q q' : SyncQueue A)
      → IsWithin n q
      → put t k x q ≡ returns tt q'
      → IsWithin n q'
  unfolding put
  put-IsWithin n t k x q q' (h, b) e =
      (ground (arith, h), ground (arith, h, b, length-append q.queue (x ∷ [])))

  pub put_waits-IsWithin :
      (n t k : ℕ) (x : A) (q q' : SyncQueue A)
      → IsWithin n q
      → put t k x q ≡ waits q'
      → IsWithin n q'
  unfolding put
  put_waits-IsWithin n t k x q q' (h, b) e = (ground (arith, h), ground (arith, h, b))

  pub take-IsWithin :
      (n t k : ℕ) (x : A) (q q' : SyncQueue A)
      → IsWithin n q
      → take t k q ≡ returns x q'
      → IsWithin n q'
  unfolding take
  take-IsWithin n t k x q q' (h, b) e = (ground (arith, h), ground (arith, h, b))

  pub take_waits-IsWithin :
      (n t k : ℕ) (q q' : SyncQueue A) → IsWithin n q → take t k q ≡ waits q' → IsWithin n q'
  unfolding take
  take_waits-IsWithin n t k q q' (h, b) e = (ground (arith, h), ground (arith, h, b))
