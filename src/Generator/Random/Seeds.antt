-- ===== src/Generator/Random/Seeds.antt =====
-- No two devices of a run have one seed.
use rconfig_sim.Base.{ℕ, ◌/◌, ◌^◌, ◌<◌, ◌≡◌, sym, ap, ◌∙◌, arith}
use rconfig_sim.Words.Mixing.{xor_shift-lt, mul64-lt, xor_shift-injective, mul64-injective}
use rconfig_sim.Words.Xor.{zero-bit_xor, bit_xor_assoc, bit_xor_self, bit_xor-lt}
use rconfig_sim.Generator.Random.{device_seed}
use rconfig_sim.Words.{xor_shift, mul64}
use Prim.Native.Nat.{bit_xor}

shifted_out : (x : ℕ) → x < 2 ^ 64 → x / 2 ^ 33 / 2 ^ 33 / 2 ^ 33 ≡ 0
shifted_out x h = omega arith

xor_cancel : (s x y : ℕ) → bit_xor s x ≡ bit_xor s y → x ≡ y
xor_cancel s x y e = sym (back x) ∙ (ap (λ (z : ℕ). bit_xor s z) e ∙ back y)
  where
    back : (z : ℕ) → bit_xor s (bit_xor s z) ≡ z
    back z =
        sym (bit_xor_assoc s s z) ∙ (ap (λ (u : ℕ). bit_xor u z) (bit_xor_self s) ∙ zero-bit_xor z)

xor_shift_33 : (x y : ℕ) → x < 2 ^ 64 → y < 2 ^ 64 → xor_shift 33 x ≡ xor_shift 33 y → x ≡ y
xor_shift_33 x y h k e = xor_shift-injective 33 x y (shifted_out x h) (shifted_out y k) e

-- Two indices give two seeds, whatever the seed of the run: no step of the mixing loses a bit.
pub device_seed-injective :
    (seed i j : ℕ)
    → seed < 2 ^ 64
    → i < 2 ^ 64
    → j < 2 ^ 64
    → device_seed seed i ≡ device_seed seed j
    → i ≡ j
unfolding device_seed
device_seed-injective seed i j s hi hj e =
    let a = λ (x : ℕ). bit_xor seed (mul64 2654435761 x) in
    let al = λ (x : ℕ). bit_xor-lt 64 seed (mul64 2654435761 x) s (mul64-lt 2654435761 x) in
    let b = λ (x : ℕ). mul64 0xff51afd7ed558ccd (xor_shift 33 (a x)) in
    let c = λ (x : ℕ). mul64 0xc4ceb9fe1a85ec53 (xor_shift 33 (b x)) in
    let p : c i ≡ c j = xor_shift_33 (c i) (c j) (mul64-lt _ _) (mul64-lt _ _) e in
    let q : xor_shift 33 (b i) ≡ xor_shift 33 (b j) =
      mul64-injective 0xc4ceb9fe1a85ec53 0x9cb4b2f8129337db 8680939279959119233 (xor_shift 33 (b i))
        (xor_shift 33 (b j)) (omega arith) (xor_shift-lt 33 (b i) (mul64-lt _ _))
        (xor_shift-lt 33 (b j) (mul64-lt _ _)) p in
    let r : b i ≡ b j = xor_shift_33 (b i) (b j) (mul64-lt _ _) (mul64-lt _ _) q in
    let t : xor_shift 33 (a i) ≡ xor_shift 33 (a j) =
      mul64-injective 0xff51afd7ed558ccd 0x4f74430c22a54005 5710046619856821070 (xor_shift 33 (a i))
        (xor_shift 33 (a j)) (omega arith) (xor_shift-lt 33 (a i) (al i))
        (xor_shift-lt 33 (a j) (al j)) r in
    let u : a i ≡ a j = xor_shift_33 (a i) (a j) (al i) (al j) t in
    mul64-injective 2654435761 0xcfa4a56b0e8b2f51 2153028908 i j (omega arith) hi hj
      (xor_cancel seed (mul64 2654435761 i) (mul64 2654435761 j) u)
