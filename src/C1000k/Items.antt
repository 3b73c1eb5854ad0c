-- ===== src/C1000k/Items.antt =====
-- network/demo4_c1000k_server.cpp: items at their places, and changing one of them.
use cpp_example.Common.{
  ℕ, zero, suc, ◌/◌, ◌%◌, ◌<◌, ◌≡◌, ◌≢◌, refl, ◌⊎◌, inl, inr, some, List, [], ◌∷◌, arith, get_elem?,
  set, get_elem?-set_ne, Option-cases, length-set, All, length,
}
use cpp_example.Common.Outcome.{done}
use cpp_example.C1000k.Reactor.{
  SockItem, EventBlock, Reactor, Mallocs, Place, reactor_lookup, grow, item_length,
}
use cpp_example.C1000k.Lookup.{IsWhole, get_elem?-some}
use cpp_example.C1000k.Server.{item_at, with_item}

-- The place of a client socket.
abbrev pub place_of : ℕ → Place
place_of fd = record { block = fd / 1024; index = fd % 1024 }

pub lookup_present :
    (ms : List Mallocs) (fd : ℕ) (r : Reactor)
    → IsWhole r
    → 0 < fd
    → fd / 1024 < r.block_count
    → reactor_lookup ms fd r ≡ done (some (place_of fd), r)
unfolding reactor_lookup grow
lookup_present ms zero r w pos h = absurd (omega arith)
lookup_present ms (suc n) r w pos h =
    let (b, e) = get_elem?-some r.eventblocks (suc n / 1024) (omega (arith, w.counted, h)) in
    rw (stays ms) (ground (arith, e))
  where
    stays : (ms : List Mallocs) → grow ms (suc n / 1024) r ≡ done r
    stays [] = ground (arith, h)
    stays (m ∷ ms) = ground (arith, h)

set_at {ℓ} :
    {A : Type ℓ} (xs : List A) (i : ℕ) (x y : A)
    → get_elem? xs i ≡ some x
    → get_elem? (set xs i y) i ≡ some y
set_at [] i x y h = cc
set_at (z ∷ xs) zero x y h = refl
set_at (z ∷ xs) (suc i) x y h = set_at xs i x y h

pub with_item_self :
    (r : Reactor) (p : Place) (x y : SockItem)
    → item_at r p ≡ some x
    → item_at (with_item r p y) p ≡ some y
unfolding item_at with_item
with_item_self r p x y h = elim (Option-cases (get_elem? r.eventblocks p.block)) [
  | inl e ↦ ground (arith, h, e)
  | inr (b, e) ↦
      let f : get_elem? b p.index ≡ some x = ground (arith, h, e) in
      ground (arith, e, set_at r.eventblocks p.block b (set b p.index y) e, set_at b p.index x y f)
]

-- Another place keeps its item.
pub with_item-other :
    (r : Reactor) (p q : Place) (y : SockItem)
    → (p.block ≢ q.block) ⊎ (p.index ≢ q.index)
    → item_at (with_item r p y) q ≡ item_at r q
unfolding item_at with_item
with_item-other r p q y h = elim (Option-cases (get_elem? r.eventblocks p.block)) [
  | inl e ↦ ground (arith, e)
  | inr (b, e) ↦ elim h [
    | inl n ↦ ground (arith, e, get_elem?-set_ne r.eventblocks p.block q.block (set b p.index y) n)
    | inr n ↦ ground (
      arith,
      e,
      get_elem?-set_ne r.eventblocks p.block q.block (set b p.index y),
      set_at r.eventblocks p.block b (set b p.index y) e,
      get_elem?-set_ne b p.index q.index y n,
    )
  ]
]

module _ (P : EventBlock → Type 0) where
  All-set : (xs : List EventBlock) (i : ℕ) (b : EventBlock) → All P xs → P b → All P (set xs i b)
  All-set [] i b h k = h
  All-set (x ∷ xs) zero b h k = (k, h.1)
  All-set (x ∷ xs) (suc i) b h k = (h.0, All-set xs i b h.1 k)

  All-get_elem? :
      (xs : List EventBlock) (i : ℕ) (b : EventBlock) → All P xs → get_elem? xs i ≡ some b → P b
  All-get_elem? [] i b h e = cc
  All-get_elem? (x ∷ xs) zero b h e = ground (arith, h, e)
  All-get_elem? (x ∷ xs) (suc i) b h e = All-get_elem? xs i b h.1 e

pub with_item-IsWhole :
    (r : Reactor) (p : Place) (y : SockItem) → IsWhole r → IsWhole (with_item r p y)
unfolding with_item
with_item-IsWhole r p y w = elim (Option-cases (get_elem? r.eventblocks p.block)) [
  | inl e ↦ rw (with_item, e) w
  | inr (b, e) ↦
      rw (with_item, e)
        (record {
          counted = omega (arith, w.counted, length-set r.eventblocks p.block (set b p.index y));
          full =
              All-set (λ c. length c ≡ item_length) r.eventblocks p.block (set b p.index y) w.full
                (omega (
                  arith,
                  length-set b p.index y,
                  All-get_elem? (λ c. length c ≡ item_length) r.eventblocks p.block b w.full e,
                ));
        })
]

pub with_item-block_count :
    (r : Reactor) (p : Place) (y : SockItem) → (with_item r p y).block_count ≡ r.block_count
unfolding with_item
with_item-block_count r p y = elim (Option-cases (get_elem? r.eventblocks p.block)) [
  | inl e ↦ rw (with_item, e) refl
  | inr (b, e) ↦ rw (with_item, e) refl
]

pub some_item :
    (r : Reactor) (fd : ℕ)
    → IsWhole r
    → fd / 1024 < r.block_count
    → (x : SockItem) × (item_at r (place_of fd) ≡ some x)
unfolding item_at
some_item r fd w h =
    let (b, e) = get_elem?-some r.eventblocks (fd / 1024) (omega (arith, w.counted, h)) in
    let l : length b ≡ item_length =
      All-get_elem? (λ c. length c ≡ item_length) r.eventblocks (fd / 1024) b w.full e in
    let (x, f) = inside b (fd % 1024) (omega (arith, l)) in (x, rw (item_at, e) f)
  where
    inside :
        (xs : List SockItem) (i : ℕ) → i < length xs → (x : SockItem) × (get_elem? xs i ≡ some x)
    inside [] i h = absurd (omega arith)
    inside (x ∷ xs) zero h = (x, refl)
    inside (x ∷ xs) (suc i) h = inside xs i (omega arith)
