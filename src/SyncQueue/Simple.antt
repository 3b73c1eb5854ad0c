-- ===== src/SyncQueue/Simple.antt =====
-- condition_variable/sync_queue_by_unique_lock.h: SimpleSyncQueue<T>, without a bound.
use cpp_example.Common.{
  Bool, true, false, List, [], ◌∷◌, ◌++◌, ℕ, ◌≡◌, length, erase, contains, arith,
}
use cpp_example.SyncQueue.Waiting.{Called, waits, returns, notify_one}

pub record SimpleSyncQueue (A : Type 0) : Type 0 where
  pub queue : List A
  pub not_empty : List ℕ

module _ {A : Type 0} where
  unfoldable pub new_queue : SimpleSyncQueue A
  new_queue = record { queue = []; not_empty = [] }

  unfoldable pub put : ℕ → A → SimpleSyncQueue A → SimpleSyncQueue A
  put chosen x q = record { queue = q.queue ++ x ∷ []; not_empty = notify_one chosen q.not_empty }

  -- The wait tests its predicate first, and again when it has been woken.
  unfoldable pub take : ℕ → SimpleSyncQueue A → Called A (SimpleSyncQueue A)
  take thread q = elim q.queue [
    | [] ↦ waits (record q { not_empty = q.not_empty ++ thread ∷ [] })
    | x ∷ xs ↦ returns x (record q { queue = xs })
  ]

  -- A wait may also end without a notification.
  unfoldable pub wake_up : ℕ → SimpleSyncQueue A → SimpleSyncQueue A
  wake_up thread q = record q { not_empty = erase thread q.not_empty }

  unfoldable pub is_waiting : ℕ → SimpleSyncQueue A → Bool
  is_waiting thread q = contains thread q.not_empty

  unfoldable pub empty : SimpleSyncQueue A → Bool
  empty q = elim q.queue [ [] ↦ true | x ∷ xs ↦ false ]

  unfoldable pub size : SimpleSyncQueue A → ℕ
  size q = length q.queue

  pub put_adds :
      (k : ℕ) (x : A) (q q' : SimpleSyncQueue A)
      → ◌≡◌ {A = Called (Unit {0}) (SimpleSyncQueue A)} (returns tt (put k x q)) (returns tt q')
      → q'.queue ≡ q.queue ++ x ∷ []
  unfolding put
  put_adds k x q q' e = ground arith

  pub take_removes :
      (t : ℕ) (x : A) (q q' : SimpleSyncQueue A) → take t q ≡ returns x q' → q.queue ≡ x ∷ q'.queue
  unfolding take
  take_removes t x q q' e = ground arith

  pub take_waits : (t : ℕ) (q q' : SimpleSyncQueue A) → take t q ≡ waits q' → q'.queue ≡ q.queue
  unfolding take
  take_waits t q q' e = ground arith
