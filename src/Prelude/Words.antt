-- ===== src/Prelude/Words.antt =====
-- Machine words, as numbers below a power of two.
use Prim.Native.Nat.{ℕ, ◌+◌, ◌-◌, ◌*◌, ◌%◌, ◌^◌, min}

abbrev pub u32_mod : ℕ
u32_mod = 2 ^ 32

abbrev pub u64_mod : ℕ
u64_mod = 2 ^ 64

-- `x += 1` on a u32 and on a u64, in a release build.
abbrev pub inc32 : ℕ → ℕ
inc32 a = (a + 1) % u32_mod

abbrev pub inc64 : ℕ → ℕ
inc64 a = (a + 1) % u64_mod

abbrev pub wrapping_mul64 : ℕ → ℕ → ℕ
wrapping_mul64 a b = (a * b) % u64_mod

abbrev pub saturating_add64 : ℕ → ℕ → ℕ
saturating_add64 a b = min (a + b) (u64_mod - 1)

abbrev pub saturating_add32 : ℕ → ℕ → ℕ
saturating_add32 a b = min (a + b) (u32_mod - 1)

abbrev pub wrapping_add32 : ℕ → ℕ → ℕ
wrapping_add32 a b = (a + b) % u32_mod

abbrev pub wrapping_mul32 : ℕ → ℕ → ℕ
wrapping_mul32 a b = (a * b) % u32_mod
