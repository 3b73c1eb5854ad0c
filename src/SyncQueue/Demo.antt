-- ===== src/SyncQueue/Demo.antt =====
-- condition_variable/demo1_sync_queue.cpp: a thread that puts 20 values
-- and one that takes and prints 20, over a SyncQueue of 5.
pub mod Running
pub mod Progress
use cpp_example.Common.{
  ℕ, zero, suc, ◌+◌, ◌≤◌, ◌<◌, ◌≡◌, refl, sym, ap, ◌∙◌, ◌⊎◌, inl, inr, List, [], ◌∷◌, ◌++◌,
  append_assoc, arith, length, length-append, erase, contains, true, false, Bool-cases, ◌==◌,
}
use cpp_example.SyncQueue.Waiting.{Called, waits, returns, notify_one}
use cpp_example.SyncQueue.Bounded.{SyncQueue, put, take, wake_up}
use cpp_example.SyncQueue.Bounded

abbrev pub rounds : ℕ
rounds = 20

-- The threads t1 and t2.
abbrev pub producer : ℕ
producer = 1

abbrev pub consumer : ℕ
consumer = 2

-- `sent` is the loop variable of PutDatas, `received` that of TakeDatas.
pub record Demo : Type 0 where
  pub sync_queue : SyncQueue ℕ
  pub sent : ℕ
  pub received : ℕ
  pub printed : List ℕ

unfoldable pub start_demo : Demo
unfolding Bounded.new_queue
start_demo = record { sync_queue = Bounded.new_queue 5; sent = 0; received = 0; printed = [] }

-- A thread that does not wait runs its next call up to the return or the wait.
pub data Step (d : Demo) : Demo → Type 0 where
  put_datas :
      (k : ℕ) {q : SyncQueue ℕ}
      → d.sent < rounds
      → contains producer d.sync_queue.not_full ≡ false
      → put producer k d.sent d.sync_queue ≡ returns tt q
      → Step d (record d { sync_queue = q; sent = d.sent + 1 })
  put_waits :
      (k : ℕ) {q : SyncQueue ℕ}
      → d.sent < rounds
      → contains producer d.sync_queue.not_full ≡ false
      → put producer k d.sent d.sync_queue ≡ waits q
      → Step d (record d { sync_queue = q })
  take_datas :
      (k x : ℕ) {q : SyncQueue ℕ}
      → d.received < rounds
      → contains consumer d.sync_queue.not_empty ≡ false
      → take consumer k d.sync_queue ≡ returns x q
      → Step d
          (record d { sync_queue = q; received = d.received + 1; printed = d.printed ++ x ∷ [] })
  take_waits :
      (k : ℕ) {q : SyncQueue ℕ}
      → d.received < rounds
      → contains consumer d.sync_queue.not_empty ≡ false
      → take consumer k d.sync_queue ≡ waits q
      → Step d (record d { sync_queue = q })

-- Steps, and waits that end unnotified.
pub data Reach : Demo → Type 0 where
  here : Reach start_demo
  then_step : {d e : Demo} → Reach d → Step d e → Reach e
  then_woken :
      {d : Demo} (thread : ℕ)
      → Reach d
      → Reach (record d { sync_queue = wake_up thread d.sync_queue })
