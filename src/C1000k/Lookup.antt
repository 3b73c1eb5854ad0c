-- ===== src/C1000k/Lookup.antt =====
-- network/demo4_c1000k_server.cpp: growing the reactor and finding an item in it.
use cpp_example.Common.{
  All-append, ℕ, zero, suc, ◌+◌, ◌/◌, ◌%◌, ◌≤◌, ◌<◌, ◌≡◌, refl, Bool, true, false, some, List, [],
  ◌∷◌, ◌++◌, arith, leb, get_elem?, replicate, All, length, length-append, length-replicate,
  Bool-cases, ◌⊎◌, inl, inr,
}
use cpp_example.Common.Outcome.{done, diverged}
use cpp_example.C1000k.Reactor.{
  EventBlock, Reactor, Mallocs, grown, reactor_resize, grow, reactor_lookup, item_length,
  zeroed_item,
}

-- The count is the number of blocks, and each block has its 1024 items.
pub record IsWhole (r : Reactor) : Type 0 where
  pub counted : length r.eventblocks ≡ r.block_count
  pub full : All (λ b. length b ≡ item_length) r.eventblocks

-- Every block of the first stands in the second at its place.
abbrev pub IsKept : Reactor → Reactor → Type 0
IsKept r r' =
    (i : ℕ) (b : EventBlock)
    → get_elem? r.eventblocks i ≡ some b
    → get_elem? r'.eventblocks i ≡ some b

abbrev pub Succeeds : Mallocs → Type 0
Succeeds m = (m.items ≡ true) × (m.block ≡ true)

get_elem?-append :
    (xs ys : List EventBlock) (i : ℕ) (b : EventBlock)
    → get_elem? xs i ≡ some b
    → get_elem? (xs ++ ys) i ≡ some b
get_elem?-append [] ys i b h = cc
get_elem?-append (x ∷ xs) ys zero b h = h
get_elem?-append (x ∷ xs) ys (suc i) b h = get_elem?-append xs ys i b h

pub get_elem?-some :
    (xs : List EventBlock) (i : ℕ) → i < length xs → (b : EventBlock) × (get_elem? xs i ≡ some b)
get_elem?-some [] i h = absurd (omega arith)
get_elem?-some (x ∷ xs) zero h = (x, refl)
get_elem?-some (x ∷ xs) (suc i) h = get_elem?-some xs i (omega arith)

-- A call of reactor_resize on a whole reactor, whatever malloc answers, keeps it whole and its
-- blocks where they are; either the result is 0 and the count has grown by one, or the reactor is
-- unchanged.
pub reactor_resize-IsWhole :
    (m : Mallocs) (r : Reactor)
    → IsWhole r
    → IsWhole (reactor_resize m r).1
      × IsKept r (reactor_resize m r).1
      × (((reactor_resize m r).0 ≡ grown) × ((reactor_resize m r).1.block_count ≡ r.block_count + 1)
          ⊎ ((reactor_resize m r).1 ≡ r))
unfolding reactor_resize
reactor_resize-IsWhole m r w = by_replies m.items m.block refl refl
  where
    by_replies :
        (a b : Bool)
        → m.items ≡ a
        → m.block ≡ b
        → IsWhole (reactor_resize m r).1
          × IsKept r (reactor_resize m r).1
          × (((reactor_resize m r).0 ≡ grown)
                × ((reactor_resize m r).1.block_count ≡ r.block_count + 1)
              ⊎ ((reactor_resize m r).1 ≡ r))
    by_replies false b ea eb = rw ea (w, λ i c h. h, inr refl)
    by_replies true false ea eb = rw ea (rw eb (w, λ i c h. h, inr refl))
    by_replies true true ea eb = rw ea (
        rw eb (
          record {
            counted = omega (
              arith,
              w.counted,
              length-append r.eventblocks (replicate item_length zeroed_item ∷ []),
            );
            full =
                All-append (λ b. length b ≡ item_length) r.eventblocks
                  (replicate item_length zeroed_item ∷ []) w.full
                  (length-replicate item_length zeroed_item, tt);
          },
          λ i c h. get_elem?-append r.eventblocks (replicate item_length zeroed_item ∷ []) i c h,
          inl (refl, refl),
        ))

-- The loop of reactor_lookup ends when malloc answers often enough, with the block in the list.
grow_ends :
    (ms : List Mallocs) (k : ℕ) (r : Reactor)
    → IsWhole r
    → All Succeeds ms
    → k < r.block_count + length ms
    → (r' : Reactor) × (grow ms k r ≡ done r') × IsWhole r' × IsKept r r' × (k < r'.block_count)
unfolding grow reactor_resize
grow_ends [] k r w ok h = (r, ground arith, w, λ i b e. e, omega arith)
grow_ends (m ∷ ms) k r w ok h = elim (Bool-cases (leb r.block_count k)) [
  | inr e ↦ (r, ground (arith, e), w, λ i b e. e, ground (arith, e))
  | inl e ↦
      let (w1, kept, _) = reactor_resize-IsWhole m r w in
      let (r', d, w', kept', within) =
        grow_ends ms k (reactor_resize m r).1 w1 ok.1 (counts ok.0) in
      (r', rw e d, w', λ i b f. kept' i b (kept i b f), within)
]
  where
    counts : Succeeds m → k < (reactor_resize m r).1.block_count + length ms
    counts s = rw s.0 (rw s.1 (omega (arith, h)))

-- Looking up a client socket, with malloc succeeding in as many calls as the missing blocks: the
-- result is the socket's place, fd / 1024 and fd % 1024, there is a block of 1024 items there,
-- the reactor is whole, and every block that was there before stands where it stood.
pub reactor_lookup-finds :
    (ms : List Mallocs) (fd : ℕ) (r : Reactor)
    → IsWhole r
    → 0 < fd
    → All Succeeds ms
    → fd / 1024 < r.block_count + length ms
    → (r' : Reactor) × (reactor_lookup ms fd r
        ≡ done (some (record { block = fd / 1024; index = fd % 1024 }), r'))
      × IsWhole r'
      × IsKept r r'
      × (fd / 1024 < length r'.eventblocks)
unfolding reactor_lookup
reactor_lookup-finds ms zero r w pos ok h = absurd (omega arith)
reactor_lookup-finds ms (suc n) r w pos ok h =
    let (r', d, w', kept, within) = grow_ends ms (suc n / 1024) r w ok h in
    let inside : suc n / 1024 < length r'.eventblocks = omega (arith, w'.counted, within) in
    let (b, e) = get_elem?-some r'.eventblocks (suc n / 1024) inside in
    (r', rw d (ground (arith, e)), w', kept, inside)

-- When malloc fails, the loop of reactor_lookup does not end: after any number of calls of
-- reactor_resize the block is still missing.
pub reactor_lookup-stuck :
    (ms : List Mallocs) (fd : ℕ) (r : Reactor)
    → 0 < fd
    → All (λ m. m.items ≡ false) ms
    → r.block_count ≤ fd / 1024
    → reactor_lookup ms fd r ≡ diverged
unfolding reactor_lookup grow reactor_resize
reactor_lookup-stuck ms zero r pos bad h = absurd (omega arith)
reactor_lookup-stuck ms (suc n) r pos bad h = rw (grow_stuck ms bad) refl
  where
    grow_stuck :
        (ms : List Mallocs) → All (λ m. m.items ≡ false) ms → grow ms (suc n / 1024) r ≡ diverged
    grow_stuck [] bad = ground (arith, h)
    grow_stuck (m ∷ ms) bad = let rest = grow_stuck ms bad.1 in rw bad.0 (ground (arith, h, rest))
