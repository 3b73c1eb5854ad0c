-- ===== src/Ownership/Blocks.antt =====
-- Blocks that `new` allocates at increasing addresses; `none` is a block that was given back.
use cpp_example.Common.{
  ◌≢◌, inl, inr, ℕ, zero, suc, ◌+◌, ◌≤◌, ◌≡◌, refl, sym, ap, Option, none, some, List, [], ◌∷◌,
  ◌++◌, length, arith,
}
use cpp_example.Common.Outcome.{
  Outcome, done, overrun, ◌>>=◌, done_injective, >>=-eq-done, >>=-eq-diverged, diverged,
}

abbrev pub Blocks {ℓ} : Type ℓ → Type ℓ
Blocks A = List (Option A)

module _ {ℓ} {A : Type ℓ} where
  -- `*p` of a pointer to a block.
  unfoldable pub fetch : ℕ → Blocks A → Outcome A
  fetch a [] = overrun
  fetch zero (none ∷ h) = overrun
  fetch zero (some v ∷ h) = done v
  fetch (suc a) (c ∷ h) = fetch a h

  -- `delete` or `free` of a pointer that is not null.
  unfoldable pub release : ℕ → Blocks A → Outcome (Blocks A)
  release a [] = overrun
  release zero (none ∷ h) = overrun
  release zero (some v ∷ h) = done (none ∷ h)
  release (suc a) (c ∷ h) = release a h >>= λ rest. done (c ∷ rest)

  -- 1 for the address of a block that can be used, 0 for any other.
  unfoldable pub live : ℕ → Blocks A → ℕ
  live a [] = 0
  live zero (none ∷ h) = 0
  live zero (some v ∷ h) = 1
  live (suc a) (c ∷ h) = live a h

  unfoldable pub live_total : Blocks A → ℕ
  live_total [] = 0
  live_total (none ∷ h) = live_total h
  live_total (some v ∷ h) = suc (live_total h)

unfoldable pub same : ℕ → ℕ → ℕ
same zero zero = 1
same zero (suc b) = 0
same (suc a) zero = 0
same (suc a) (suc b) = same a b

pub same_refl : (a : ℕ) → same a a ≡ 1
unfolding same
same_refl zero = refl
same_refl (suc a) = same_refl a

module _ {ℓ} {A : Type ℓ} where
  pub live-append :
      (b : ℕ) (h : Blocks A) (v : A) → live b (h ++ some v ∷ []) ≡ live b h + same (length h) b
  unfolding live same
  live-append zero [] v = refl
  live-append (suc b) [] v = refl
  live-append zero (none ∷ h) v = refl
  live-append zero (some u ∷ h) v = refl
  live-append (suc b) (c ∷ h) v = live-append b h v

  pub live_total-append :
      (h : Blocks A) (v : A) → live_total (h ++ some v ∷ []) ≡ suc (live_total h)
  unfolding live_total
  live_total-append [] v = refl
  live_total-append (none ∷ h) v = live_total-append h v
  live_total-append (some u ∷ h) v = ap suc (live_total-append h v)

  pub fetch_last : (h : Blocks A) (v : A) → fetch (length h) (h ++ some v ∷ []) ≡ done v
  unfolding fetch
  fetch_last [] v = refl
  fetch_last (c ∷ h) v = fetch_last h v

  -- A later allocation leaves a block as it is.
  pub fetch-append :
      (a : ℕ) (h t : Blocks A) {v : A} → fetch a h ≡ done v → fetch a (h ++ t) ≡ done v
  unfolding fetch
  fetch-append a [] t e = cc
  fetch-append zero (none ∷ h) t e = cc
  fetch-append zero (some u ∷ h) t e = e
  fetch-append (suc a) (c ∷ h) t e = fetch-append a h t e

  pub fetch_live : (a : ℕ) (h : Blocks A) → 1 ≤ live a h → (v : A) × (fetch a h ≡ done v)
  unfolding fetch live
  fetch_live a [] l = absurd (omega arith)
  fetch_live zero (none ∷ h) l = absurd (omega arith)
  fetch_live zero (some v ∷ h) l = (v, refl)
  fetch_live (suc a) (c ∷ h) l = fetch_live a h l

  pub live-fetch : (a : ℕ) (h : Blocks A) {v : A} → fetch a h ≡ done v → 1 ≤ live a h
  unfolding fetch live
  live-fetch a [] e = cc
  live-fetch zero (none ∷ h) e = cc
  live-fetch zero (some v ∷ h) e = omega arith
  live-fetch (suc a) (c ∷ h) e = live-fetch a h e

  -- What giving back the block at an address leaves.
  pub record Released (a : ℕ) (h rest : Blocks A) : Type ℓ where
    pub gives : release a h ≡ done rest
    pub others : (b : ℕ) → live b rest + same a b ≡ live b h
    pub keeps : (b : ℕ) → 1 ≤ live b rest → fetch b rest ≡ fetch b h
    pub fewer : suc (live_total rest) ≡ live_total h

  pub release-Released :
      (a : ℕ) (h : Blocks A) → 1 ≤ live a h → (rest : Blocks A) × Released a h rest
  unfolding release live live_total same fetch
  release-Released a [] l = absurd (omega arith)
  release-Released zero (none ∷ h) l = absurd (omega arith)
  release-Released zero (some v ∷ h) l = (
    none ∷ h,
    record {
      gives = refl;
      others = elim [ zero ↦ refl | suc b ↦ omega arith ];
      keeps = elim [ zero ↦ λ l. absurd (omega (arith, l)) | suc b ↦ λ l. refl ];
      fewer = refl;
    },
  )
  release-Released (suc a) (none ∷ h) l =
      let (rest, r) = release-Released a h l in
      (
        none ∷ rest,
        record {
          gives = rw r.gives refl;
          others = elim [ zero ↦ refl | suc b ↦ r.others b ];
          keeps = elim [ zero ↦ λ l. refl | suc b ↦ r.keeps b ];
          fewer = r.fewer;
        },
      )
  release-Released (suc a) (some v ∷ h) l =
      let (rest, r) = release-Released a h l in
      (
        some v ∷ rest,
        record {
          gives = rw r.gives refl;
          others = elim [ zero ↦ refl | suc b ↦ r.others b ];
          keeps = elim [ zero ↦ λ l. refl | suc b ↦ r.keeps b ];
          fewer = ap suc r.fewer;
        },
      )

  -- Only a block that can be used can be given back.
  pub done-Released :
      (a : ℕ) (h rest : Blocks A) → release a h ≡ done rest → suc (live_total rest) ≡ live_total h
  unfolding release live_total
  done-Released a [] rest e = cc
  done-Released zero (none ∷ h) rest e = cc
  done-Released zero (some v ∷ h) rest e = rw (sym (done_injective e)) refl
  done-Released (suc a) (none ∷ h) rest e =
      let (t, gives, ends) = >>=-eq-done (release a h) _ e in
      rw (sym (done_injective ends)) (done-Released a h t gives)
  done-Released (suc a) (some v ∷ h) rest e =
      let (t, gives, ends) = >>=-eq-done (release a h) _ e in
      rw (sym (done_injective ends)) (ap suc (done-Released a h t gives))

  pub release-fetch :
      (a : ℕ) (h : Blocks A) {rest : Blocks A}
      → release a h ≡ done rest
      → (v : A) × (fetch a h ≡ done v)
  unfolding release fetch
  release-fetch a [] e = cc
  release-fetch zero (none ∷ h) e = cc
  release-fetch zero (some v ∷ h) e = (v, refl)
  release-fetch (suc a) (c ∷ h) e =
      let (t, gives, ends) = >>=-eq-done (release a h) _ e in release-fetch a h gives

  pub fetch_ends : (a : ℕ) (h : Blocks A) → fetch a h ≢ diverged
  unfolding fetch
  fetch_ends a [] e = cc
  fetch_ends zero (none ∷ h) e = cc
  fetch_ends zero (some v ∷ h) e = cc
  fetch_ends (suc a) (c ∷ h) e = fetch_ends a h e

  pub release_ends : (a : ℕ) (h : Blocks A) → release a h ≢ diverged
  unfolding release
  release_ends a [] e = cc
  release_ends zero (none ∷ h) e = cc
  release_ends zero (some v ∷ h) e = cc
  release_ends (suc a) (c ∷ h) e = elim (>>=-eq-diverged (release a h) _ e) [
    | inl l ↦ release_ends a h l
    | inr (t, _, d) ↦ cc
  ]

  pub fetch_dead : (a : ℕ) (h : Blocks A) → live a h ≡ 0 → fetch a h ≡ overrun
  unfolding fetch live
  fetch_dead a [] e = refl
  fetch_dead zero (none ∷ h) e = refl
  fetch_dead zero (some v ∷ h) e = absurd (omega (arith, e))
  fetch_dead (suc a) (c ∷ h) e = fetch_dead a h e

  pub live_beyond : (a : ℕ) (h : Blocks A) → length h ≤ a → live a h ≡ 0
  unfolding live
  live_beyond a [] e = refl
  live_beyond zero (c ∷ h) e = absurd (omega (arith, e))
  live_beyond (suc a) (c ∷ h) e = live_beyond a h (omega (arith, e))
