-- ===== src/Words/Mixing.antt =====
-- The mixing steps lose nothing.
use native.Mathlib.Nat.{div-add-mod', mul_assoc, add-mul-mod_self_right}
use rconfig_sim.Base.{ℕ, ◌+◌, ◌*◌, ◌/◌, ◌%◌, ◌^◌, ◌<◌, ◌≡◌, sym, ap, ◌∙◌, arith}
use rconfig_sim.Words.Xor.{bit_xor_assoc, bit_xor_self, bit_xor-zero, bit_xor-shift, bit_xor-lt}
use native.Mathlib.Nat.{div-le_self}
use Prim.Native.Nat.{bit_xor}
use rconfig_sim.Words.{xor_shift, mul64}

pub xor_shift-lt : (k x : ℕ) → x < 2 ^ 64 → xor_shift k x < 2 ^ 64
unfolding xor_shift
xor_shift-lt k x h =
    let le : x / 2 ^ k < 2 ^ 64 = omega (arith, div-le_self x (2 ^ k)) in
    bit_xor-lt 64 x (x / 2 ^ k) h le

pub mul64-lt : (m x : ℕ) → mul64 m x < 2 ^ 64
unfolding mul64
mul64-lt m x = omega arith

-- Three shifts by k are enough to take x back out.
xor_shift_back :
    (k x : ℕ)
    → x / 2 ^ k / 2 ^ k / 2 ^ k ≡ 0
    → bit_xor (xor_shift k x) (bit_xor (xor_shift k x / 2 ^ k) (xor_shift k x / 2 ^ k / 2 ^ k)) ≡ x
unfolding xor_shift
xor_shift_back k x h =
    let a = x / 2 ^ k in
    let b = a / 2 ^ k in
    let p : bit_xor x a / 2 ^ k ≡ bit_xor a b = bit_xor-shift k x a in
    let q : bit_xor x a / 2 ^ k / 2 ^ k ≡ b =
      ap (λ (y : ℕ). y / 2 ^ k) p
      ∙ (bit_xor-shift k a b ∙ (ap (λ (y : ℕ). bit_xor b y) h ∙ bit_xor-zero b)) in
    let r : bit_xor (bit_xor x a / 2 ^ k) (bit_xor x a / 2 ^ k / 2 ^ k) ≡ a =
      ap (λ (y : ℕ). bit_xor y (bit_xor x a / 2 ^ k / 2 ^ k)) p
      ∙ (ap (λ (y : ℕ). bit_xor (bit_xor a b) y) q ∙ cancel a b) in
    ap (λ (y : ℕ). bit_xor (bit_xor x a) y) r ∙ cancel x a
  where
    cancel : (u w : ℕ) → bit_xor (bit_xor u w) w ≡ u
    cancel u w =
        bit_xor_assoc u w w ∙ (ap (λ (y : ℕ). bit_xor u y) (bit_xor_self w) ∙ bit_xor-zero u)

pub xor_shift-injective :
    (k x y : ℕ)
    → x / 2 ^ k / 2 ^ k / 2 ^ k ≡ 0
    → y / 2 ^ k / 2 ^ k / 2 ^ k ≡ 0
    → xor_shift k x ≡ xor_shift k y
    → x ≡ y
xor_shift-injective k x y p q e =
    sym (xor_shift_back k x p)
    ∙ (ap (λ (z : ℕ). bit_xor z (bit_xor (z / 2 ^ k) (z / 2 ^ k / 2 ^ k))) e ∙ xor_shift_back k y q)

-- A product by an odd number is undone by a product with its inverse modulo 2^64.
mul64_undone : (m w q x : ℕ) → m * w ≡ 1 + q * 2 ^ 64 → x < 2 ^ 64 → mul64 w (mul64 m x) ≡ x
unfolding mul64
mul64_undone m w q x e h =
    let d = x * m / 2 ^ 64 in
    let r = x * m % 2 ^ 64 in
    let a : (d * 2 ^ 64 + r) * w ≡ x * m * w =
      ap (λ (y : ℕ). y * w) (div-add-mod' (x * m) (2 ^ 64)) in
    let b : x * m * w ≡ x * (1 + q * 2 ^ 64) = mul_assoc x m w ∙ ap (λ (y : ℕ). x * y) e in
    let c : r * w + d * w * 2 ^ 64 ≡ x + x * q * 2 ^ 64 = omega (arith, a, b) in
    sym (add-mul-mod_self_right (r * w) (d * w) (2 ^ 64))
    ∙ (ap (λ (y : ℕ). y % 2 ^ 64) c ∙ (add-mul-mod_self_right x (x * q) (2 ^ 64) ∙ (omega arith)))

pub mul64-injective :
    (m w q x y : ℕ)
    → m * w ≡ 1 + q * 2 ^ 64
    → x < 2 ^ 64
    → y < 2 ^ 64
    → mul64 m x ≡ mul64 m y
    → x ≡ y
mul64-injective m w q x y e h k p =
    sym (mul64_undone m w q x e h) ∙ (ap (mul64 w) p ∙ mul64_undone m w q y e k)
