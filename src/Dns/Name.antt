-- ===== src/Dns/Name.antt =====
-- network/dns/async_dns_client.cpp: names in a response, with compression pointers.
pub mod Encode
pub mod RoundTrip
pub mod Loops
use cpp_example.Common.{
  ℕ, zero, suc, ◌+◌, ◌==◌, leb, bit_and, Bool, true, false, List, [], ◌∷◌, ◌++◌, length,
  if◌then◌else◌,
}
use cpp_example.Common.Outcome.{Outcome, done, overrun, diverged, ◌>>=◌, byte_at, read_at}

unfoldable pub is_pointer : ℕ → Bool
is_pointer byte = bit_and byte 0xC0 == 0xC0

-- `memcpy(pos, bytes, n)` into `char aname[128]`: what was written so far is a prefix of it.
unfoldable pub put : List ℕ → List ℕ → Outcome (List ℕ)
put out bytes = if leb (length out + length bytes) 128 then done (out ++ bytes) else overrun

-- The loop `while (1)` takes fuel; `out` is what stands before `pos`, of length `*len`.
unfoldable pub dns_parse_name : ℕ → List ℕ → ℕ → List ℕ → Outcome (List ℕ)
dns_parse_name zero chunk ptr out = diverged
dns_parse_name (suc fuel) chunk ptr out = do
  flag ← byte_at chunk ptr
  elim (flag == 0) [
    | true ↦ done out
    | false ↦ elim (is_pointer flag) [
      | true ↦ byte_at chunk (ptr + 1) >>= λ n. dns_parse_name fuel chunk n out
      | false ↦ do
        label ← read_at chunk (ptr + 1) flag
        out1 ← put out label
        next ← byte_at chunk (ptr + 1 + flag)
        out2 ← if next == 0 then done out1 else put out1 (b'.' ∷ [])
        dns_parse_name fuel chunk (ptr + 1 + flag) out2
    ]
  ]

-- The inner `while (1)` that skips the name of one query; the position behind it.
unfoldable pub skip_name : ℕ → List ℕ → ℕ → Outcome ℕ
skip_name zero chunk ptr = diverged
skip_name (suc fuel) chunk ptr = do
  flag ← byte_at chunk ptr
  elim (flag == 0) [
    | true ↦ done (ptr + (flag + 1))
    | false ↦ skip_name fuel chunk (ptr + (flag + 1))
  ]
