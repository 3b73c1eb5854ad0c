-- ===== src/Echo/Slots.antt =====
-- network/echo: the array of client descriptors of the select and the poll server. A negative
-- entry is `none`.
pub mod Order
pub mod Tracking
pub mod Entries
use cpp_example.Common.{
  ℕ, zero, suc, ◌+◌, ◌-◌, ◌==◌, Bool, true, false, Option, none, some, List, [], ◌∷◌, ◌++◌,
}
use cpp_example.Echo.Sys.{Got, got, failed, Act, write, close}

-- The search for a free entry: its index, or the length of the array.
unfoldable pub find_slot : List (Option ℕ) → ℕ
find_slot [] = 0
find_slot (none ∷ rest) = 0
find_slot (some fd ∷ rest) = suc (find_slot rest)

pub record Walked (S : Type 0) : Type 0 where
  pub slots : List (Option ℕ)
  pub state : S
  pub acts : List Act

-- The loop over the entries from index `i`, `n` of them: `ready` is the test for a read event,
-- `reads` what read returns for the entry, `nready` the countdown. `on_close` is what else is done
-- when a client is closed.
module _ {S : Type 0} (ready : ℕ → ℕ → Bool) (reads : ℕ → Got) (on_close : ℕ → S → S) where
  -- The branch for one ready client: the entry afterwards.
  unfoldable pub serve : ℕ → Got → S → Option ℕ × S × List Act
  serve fd (got []) s = (none, on_close fd s, close fd ∷ [])
  serve fd (got (b ∷ bs)) s = (some fd, s, write fd (b ∷ bs) ∷ [])
  serve fd (failed e) s = (none, on_close fd s, close fd ∷ [])

  unfoldable pub walk : ℕ → ℕ → List (Option ℕ) → ℕ → S → Walked S
  unfolding serve
  walk zero i slots nready s = record { slots = slots; state = s; acts = [] }
  walk (suc n) i [] nready s = record { slots = []; state = s; acts = [] }
  walk (suc n) i (none ∷ rest) nready s =
      let w = walk n (i + 1) rest nready s in record w { slots = none ∷ w.slots }
  walk (suc n) i (some fd ∷ rest) nready s = elim (ready i fd) [
    | false ↦ let w = walk n (i + 1) rest nready s in record w { slots = some fd ∷ w.slots }
    | true ↦
        let (slot, s1, done) = serve fd (reads i) s in
        elim (nready - 1 == 0) [
          | true ↦ record { slots = slot ∷ rest; state = s1; acts = done }
          | false ↦
              let w = walk n (i + 1) rest (nready - 1) s1 in
              record { slots = slot ∷ w.slots; state = w.state; acts = done ++ w.acts }
        ]
  ]
