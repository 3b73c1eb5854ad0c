-- ===== src/Common/Buffers.antt =====
-- Writes into a buffer whose parts are known.
use Prim.Native.Nat.{ℕ, zero, suc, ◌+◌, ◌-◌, ◌≤◌, ◌<◌}
use mathlib.Core.Path.{◌≡◌, refl, ap, sym, ◌∙◌}
use mathlib.Core.Bool.{true}
use mathlib.Core.List.{List, [], ◌∷◌, ◌++◌, append_assoc}
use mathlib.Core.Logic.{◌⊎◌, inl, inr}
use native.Mathlib.Omega.{arith}
use cpp_example.Common.Tests.{leb, le→leb, leb→le, Bool-cases}
use cpp_example.Common.Sets.{contains}
use cpp_example.Common.Lists.{
  replicate, length-replicate, replicate-add, length, take, drop, length-append, take-append_length,
  drop-append_length, length-take_le, length-drop,
}
use cpp_example.Common.Outcome.{done, overrun, prefix, read_at, write_at, printed_string, c_string}

-- Bytes over bytes as many: what stands before and behind them stays.
pub write_at-append :
    (buf pre old post new : List ℕ) (off : ℕ)
    → buf ≡ pre ++ (old ++ post)
    → off ≡ length pre
    → length old ≡ length new
    → write_at buf off new ≡ done (pre ++ (new ++ post))
unfolding write_at
write_at-append buf pre old post new off e o k = rw (e, o) (rw fits (ap done both))
  where
    fits : leb (length pre + length new) (length (pre ++ (old ++ post))) ≡ true
    fits = le→leb _ _ (omega (arith, length-append pre (old ++ post), length-append old post))

    behind : drop (length pre + length new) (pre ++ (old ++ post)) ≡ post
    behind =
        ap (λ t. drop t (pre ++ (old ++ post))) (omega (arith, length-append pre old))
        ∙ ap (drop (length (pre ++ old))) (sym (append_assoc pre old post))
        ∙ drop-append_length (pre ++ old) post

    both :
        take (length pre) (pre ++ (old ++ post))
          ++ new
          ++ drop (length pre + length new) (pre ++ (old ++ post))
        ≡ pre ++ (new ++ post)
    both = rw (take-append_length pre (old ++ post), behind) (append_assoc pre new post)

-- A write keeps the length of the buffer, or it is an overrun.
pub write_at-cases :
    (buf : List ℕ) (off : ℕ) (new : List ℕ)
    → (write_at buf off new ≡ overrun)
      ⊎ ((buf' : List ℕ) × (write_at buf off new ≡ done buf')
          × (length buf' ≡ length buf)
          × (off + length new ≤ length buf))
unfolding write_at
write_at-cases buf off new = elim (Bool-cases (leb (off + length new) (length buf))) [
  | inr e ↦ inl (rw e refl)
  | inl e ↦ inr (
    take off buf ++ new ++ drop (off + length new) buf,
    rw e refl,
    omega (
      arith,
      leb→le _ _ e,
      length-append (take off buf ++ new) (drop (off + length new) buf),
      length-append (take off buf) new,
      length-take_le off buf,
      length-drop (off + length new) buf,
    ),
    leb→le _ _ e,
  )
]

pub write_at-overrun :
    (buf : List ℕ) (off : ℕ) (new : List ℕ)
    → length buf < off + length new
    → write_at buf off new ≡ overrun
unfolding write_at
write_at-overrun buf off new h = ground arith

prefix-all : (xs : List ℕ) → prefix (length xs) xs ≡ done xs
prefix-all [] = refl
prefix-all (x ∷ xs) = rw (prefix-all xs)

pub read_at-all : (xs : List ℕ) (n : ℕ) → n ≡ length xs → read_at xs 0 n ≡ done xs
unfolding read_at
read_at-all xs n e = rw e (prefix-all xs)

-- A read at the start of a buffer that has as many bytes.
pub read_at-take : (xs : List ℕ) (n : ℕ) → n ≤ length xs → read_at xs 0 n ≡ done (take n xs)
unfolding read_at
read_at-take xs n h = ahead xs n h
  where
    ahead : (xs : List ℕ) (n : ℕ) → n ≤ length xs → prefix n xs ≡ done (take n xs)
    ahead xs zero h = refl
    ahead [] (suc n) h = absurd (omega arith)
    ahead (x ∷ xs) (suc n) h = rw (ahead xs n (omega arith)) refl

-- A message written into a cleared buffer.
pub write_at-replicate :
    (n : ℕ) (msg : List ℕ)
    → length msg ≤ n
    → write_at (replicate n 0) 0 msg ≡ done (msg ++ replicate (n - length msg) 0)
write_at-replicate n msg h =
    write_at-append (replicate n 0) [] (replicate (length msg) 0) (replicate (n - length msg) 0) msg
      0 whole refl (length-replicate {A = ℕ} (length msg) 0)
  where
    parts : n ≡ length msg + (n - length msg)
    parts = omega (arith, h)

    whole : replicate {A = ℕ} n 0 ≡ replicate (length msg) 0 ++ replicate (n - length msg) 0
    whole = ap (λ k. replicate {A = ℕ} k 0) parts ∙ replicate-add (length msg) (n - length msg) 0

-- A string with a zero in it is printed without an access behind it.
pub printed_string-contains :
    (xs : List ℕ) → contains 0 xs ≡ true → (line : List ℕ) × (printed_string xs ≡ done line)
printed_string-contains [] h = absurd (ground (arith, h))
printed_string-contains (zero ∷ xs) h = ([], refl)
printed_string-contains (suc x ∷ xs) h =
    let (line, e) = printed_string-contains xs (ground (arith, h)) in
    (suc x ∷ line, ground (arith, e))

-- A message that leaves room in a cleared buffer is printed.
pub printed_string-replicate :
    (n : ℕ) (msg : List ℕ)
    → length msg < n
    → (line : List ℕ) × (printed_string (msg ++ replicate (n - length msg) 0) ≡ done line)
printed_string-replicate n msg h =
    printed_string-contains (msg ++ replicate (n - length msg) 0)
      (rw tail (behind msg (replicate (n - length msg - 1) 0)))
  where
    one : n - length msg ≡ suc (n - length msg - 1)
    one = omega (arith, h)

    tail : replicate {A = ℕ} (n - length msg) 0 ≡ 0 ∷ replicate (n - length msg - 1) 0
    tail = ap (λ k. replicate {A = ℕ} k 0) one

    behind : (xs ys : List ℕ) → contains 0 (xs ++ 0 ∷ ys) ≡ true
    behind [] ys = refl
    behind (x ∷ xs) ys = ground (arith, behind xs ys)

-- A write at the start, within the buffer.
pub write_at_front :
    (buf new : List ℕ)
    → length new ≤ length buf
    → write_at buf 0 new ≡ done (new ++ drop (length new) buf)
unfolding write_at
write_at_front buf new h = ground (arith, h)

-- A zero ends what is printed, if none before it did.
pub printed_string-c_string :
    (xs rest : List ℕ) → printed_string (xs ++ 0 ∷ rest) ≡ done (c_string xs)
printed_string-c_string [] rest = refl
printed_string-c_string (zero ∷ xs) rest = refl
printed_string-c_string (suc x ∷ xs) rest = ground (arith, printed_string-c_string xs rest)

-- What the string of a list leaves out stands behind it.
pub c_string-prefix : (xs : List ℕ) → (rest : List ℕ) × (xs ≡ c_string xs ++ rest)
c_string-prefix [] = ([], refl)
c_string-prefix (zero ∷ xs) = (zero ∷ xs, refl)
c_string-prefix (suc x ∷ xs) = let (rest, e) = c_string-prefix xs in (rest, ground (arith, e))
