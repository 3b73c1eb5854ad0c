-- ===== src/Common/Outcome.antt =====
-- The result of C code over fixed buffers: a value, an access outside a buffer, or no end.
use Prim.Native.Nat.{ℕ, zero, suc, ◌+◌, ◌*◌}
use mathlib.Core.Path.{◌≡◌, refl}
use mathlib.Core.Logic.{◌≢◌, ◌⊎◌, inl, inr}
use mathlib.Core.List.{List, [], ◌∷◌, ◌++◌}
use cpp_example.Common.Tests.{leb, ◌==◌, if◌then◌else◌}
use cpp_example.Common.Lists.{length, take, drop}

pub data Outcome {ℓ} (A : Type ℓ) : Type ℓ where
  done : A → Outcome A
  overrun : Outcome A
  diverged : Outcome A

infixl 5 ◌>>=◌ ◌>>◌
abbrev pub ◌>>=◌ {ℓ κ} : {A : Type ℓ} {B : Type κ} → Outcome A → (A → Outcome B) → Outcome B
done a >>= f = f a
overrun >>= f = overrun
diverged >>= f = diverged

abbrev pub ◌>>◌ {ℓ κ} : {A : Type ℓ} {B : Type κ} → Outcome A → Outcome B → Outcome B
m >> k = m >>= λ _. k

pub done_injective {ℓ} : {A : Type ℓ} {a b : A} → done a ≡ done b → a ≡ b
done_injective h = cc

pub >>=-eq-done {ℓ κ} :
    {A : Type ℓ} {B : Type κ} (m : Outcome A) (f : A → Outcome B) {b : B}
    → (m >>= f) ≡ done b
    → (a : A) × (m ≡ done a) × (f a ≡ done b)
>>=-eq-done (done a) f h = (a, refl, h)
>>=-eq-done overrun f h = cc
>>=-eq-done diverged f h = cc

pub >>=-eq-diverged {ℓ κ} :
    {A : Type ℓ} {B : Type κ} (m : Outcome A) (f : A → Outcome B)
    → (m >>= f) ≡ diverged
    → (m ≡ diverged) ⊎ ((a : A) × (m ≡ done a) × (f a ≡ diverged))
>>=-eq-diverged (done a) f h = inr (a, refl, h)
>>=-eq-diverged overrun f h = cc
>>=-eq-diverged diverged f h = inl refl

-- What neither succeeds nor runs forever has left a buffer.
pub overrun_of {ℓ} :
    {A : Type ℓ} (m : Outcome A) → ((a : A) → m ≢ done a) → m ≢ diverged → m ≡ overrun
overrun_of (done a) h k = absurd (h a refl)
overrun_of overrun h k = refl
overrun_of diverged h k = absurd (k refl)

-- `p[off]` of a buffer of bytes.
abbrev pub first : List ℕ → Outcome ℕ
first [] = overrun
first (x ∷ xs) = done x

unfoldable pub byte_at : List ℕ → ℕ → Outcome ℕ
byte_at buf off = first (drop off buf)

-- The first `n` bytes of a list that must have as many.
abbrev pub prefix : ℕ → List ℕ → Outcome (List ℕ)
prefix zero xs = done []
prefix (suc n) [] = overrun
prefix (suc n) (x ∷ xs) = prefix n xs >>= λ ys. done (x ∷ ys)

-- `memcpy(dst, buf + off, n)`: the bytes that are read.
unfoldable pub read_at : List ℕ → ℕ → ℕ → Outcome (List ℕ)
read_at buf off n = prefix n (drop off buf)

-- `memcpy(buf + off, bytes, n)`: the buffer afterwards.
unfoldable pub write_at : List ℕ → ℕ → List ℕ → Outcome (List ℕ)
write_at buf off bytes =
    if leb (off + length bytes) (length buf)
    then done (take off buf ++ bytes ++ drop (off + length bytes) buf)
    else overrun

-- A big-endian 16-bit number, as `ntohs(*(unsigned short *) ptr)` reads it.
unfoldable pub u16_at : List ℕ → ℕ → Outcome ℕ
u16_at buf off = do hi ← byte_at buf off; lo ← byte_at buf (off + 1); done (hi * 256 + lo)

-- The C string at the head of a buffer, up to its first zero.
abbrev pub c_string : List ℕ → List ℕ
c_string [] = []
c_string (c ∷ cs) = if c == 0 then [] else c ∷ c_string cs

-- `printf("%s", buf)` of a buffer reads up to a zero byte.
abbrev pub printed_string : List ℕ → Outcome (List ℕ)
printed_string [] = overrun
printed_string (c ∷ cs) = if c == 0 then done [] else (printed_string cs >>= λ s. done (c ∷ s))
