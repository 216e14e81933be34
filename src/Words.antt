-- ===== src/Words.antt =====
-- 64-bit words as numbers below 2^64, and the steps that internal/profile/profile.go (mix64) and
-- internal/configs/random.go (deviceRand) mix them with.
pub mod Xor
pub mod Mixing
use rconfig_sim.Base.{ℕ, ◌*◌, ◌/◌, ◌%◌, ◌^◌}
use Prim.Native.Nat.{bit_xor}

-- `x ^= x >> k`.
unfoldable pub xor_shift : ℕ → ℕ → ℕ
xor_shift k x = bit_xor x (x / 2 ^ k)

-- `x *= m`.
unfoldable pub mul64 : ℕ → ℕ → ℕ
mul64 m x = x * m % 2 ^ 64
