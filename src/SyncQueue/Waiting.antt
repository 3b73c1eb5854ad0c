-- ===== src/SyncQueue/Waiting.antt =====
-- condition_variable: the threads that wait on a condition variable, in the order in which they
-- came, and what a call under the lock comes to.
use cpp_example.Common.{ℕ, zero, suc, List, [], ◌∷◌}

-- A call goes up to its wait, which gives the lock back, or it returns.
pub data Called (R S : Type 0) : Type 0 where
  waits : S → Called R S
  returns : R → S → Called R S

-- `notify_one` wakes one of the threads that wait, if there are any: `chosen` stands for the choice
-- of the system, which is the last thread for a number beyond them.
unfoldable pub notify_one : ℕ → List ℕ → List ℕ
notify_one chosen [] = []
notify_one zero (t ∷ ts) = ts
notify_one (suc n) (t ∷ []) = []
notify_one (suc n) (t ∷ u ∷ ts) = t ∷ notify_one n (u ∷ ts)
