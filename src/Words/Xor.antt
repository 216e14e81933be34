-- ===== src/Words/Xor.antt =====
-- Laws of `bit_xor`, from its digits.
use rconfig_sim.Base.{
  ℕ, zero, suc, ◌+◌, ◌-◌, ◌*◌, ◌/◌, ◌%◌, ◌^◌, ◌≤◌, ◌<◌, ◌≡◌, refl, sym, ap, ◌∙◌, arith,
}
use native.Mathlib.Nat.{pow-suc, div-one, div-div-eq-div-mul}
use Prim.Native.Nat.{bit_xor, digits, differ, bit_xor-bitwise}

-- The digits of a and b, from at most `fuel` divisions.
abbrev xor_digits : ℕ → ℕ → ℕ → ℕ
xor_digits fuel a b = digits (λ x. x) differ fuel a b

one_more : (n a b : ℕ) → a ≤ n → xor_digits (suc n) a b ≡ xor_digits n a b
one_more zero zero b p = refl
one_more zero (suc a) b p = absurd (omega arith)
one_more (suc n) zero b p = refl
one_more (suc n) (suc a) b p =
    ap (λ (x : ℕ). x * 2 + differ (suc a % 2) (b % 2))
      (one_more n (suc a / 2) (b / 2) (omega arith))

enough_digits : (k n m a b : ℕ) → a ≤ n → m ≡ k + n → xor_digits m a b ≡ xor_digits n a b
enough_digits zero n m a b p e = let f : m ≡ n = omega arith in ap (λ (x : ℕ). xor_digits x a b) f
enough_digits (suc k) n zero a b p e = absurd (omega arith)
enough_digits (suc k) n (suc m) a b p e =
    one_more m a b (omega arith) ∙ enough_digits k n m a b p (omega arith)

differ_bits : (p q : ℕ) → p < 2 → q < 2 → differ p q ≡ (p + q) % 2
differ_bits zero q h k = omega arith
differ_bits (suc zero) zero h k = refl
differ_bits (suc zero) (suc zero) h k = refl
differ_bits (suc zero) (suc (suc q)) h k = absurd (omega arith)
differ_bits (suc (suc p)) q h k = absurd (omega arith)

-- Half of suc a needs no more divisions than it is.
fewer_digits :
    (a b : ℕ) → xor_digits a (suc a / 2) (b / 2) ≡ xor_digits (suc a / 2) (suc a / 2) (b / 2)
fewer_digits a b =
    let h = suc a / 2 in enough_digits (a - h) h a h (b / 2) (omega arith) (omega arith)

pub zero-bit_xor : (b : ℕ) → bit_xor 0 b ≡ b
zero-bit_xor b = bit_xor-bitwise 0 b

-- The lowest digit, and the digits above it.
pub bit_xor_step : (a b : ℕ) → bit_xor a b ≡ bit_xor (a / 2) (b / 2) * 2 + (a % 2 + b % 2) % 2
bit_xor_step zero b = let e = zero-bit_xor b in let f = zero-bit_xor (b / 2) in omega arith
bit_xor_step (suc a) b =
    let d = differ_bits (suc a % 2) (b % 2) (omega arith) (omega arith) in
    let f = fewer_digits a b in
    let whole = bit_xor-bitwise (suc a) b in
    let half = bit_xor-bitwise (suc a / 2) (b / 2) in omega arith

pub bit_xor-half : (a b : ℕ) → bit_xor a b / 2 ≡ bit_xor (a / 2) (b / 2)
bit_xor-half a b = omega (arith, bit_xor_step a b)

assoc_fuel :
    (n a b c : ℕ) → a ≤ n → b ≤ n → c ≤ n → bit_xor (bit_xor a b) c ≡ bit_xor a (bit_xor b c)
assoc_fuel zero zero zero zero p q r = refl
assoc_fuel zero (suc a) b c p q r = absurd (omega arith)
assoc_fuel zero zero (suc b) c p q r = absurd (omega arith)
assoc_fuel zero zero zero (suc c) p q r = absurd (omega arith)
assoc_fuel (suc n) a b c p q r =
    let ih = assoc_fuel n (a / 2) (b / 2) (c / 2) (omega arith) (omega arith) (omega arith) in
    let e = bit_xor_step (bit_xor a b) c in
    let f = bit_xor_step a (bit_xor b c) in
    let g = bit_xor_step a b in
    let h = bit_xor_step b c in
    let i : bit_xor (bit_xor a b / 2) (c / 2) ≡ bit_xor (bit_xor (a / 2) (b / 2)) (c / 2) =
      ap (λ (x : ℕ). bit_xor x (c / 2)) (bit_xor-half a b) in
    let j : bit_xor (a / 2) (bit_xor b c / 2) ≡ bit_xor (a / 2) (bit_xor (b / 2) (c / 2)) =
      ap (λ (x : ℕ). bit_xor (a / 2) x) (bit_xor-half b c) in
    omega arith

pub bit_xor_assoc : (a b c : ℕ) → bit_xor (bit_xor a b) c ≡ bit_xor a (bit_xor b c)
bit_xor_assoc a b c = assoc_fuel (a + b + c) a b c (omega arith) (omega arith) (omega arith)

self_fuel : (n a : ℕ) → a ≤ n → bit_xor a a ≡ 0
self_fuel zero zero p = refl
self_fuel zero (suc a) p = absurd (omega arith)
self_fuel (suc n) a p = omega (arith, bit_xor_step a a, self_fuel n (a / 2) (omega arith))

pub bit_xor_self : (a : ℕ) → bit_xor a a ≡ 0
bit_xor_self a = self_fuel a a (omega arith)

zero_fuel : (n a : ℕ) → a ≤ n → bit_xor a 0 ≡ a
zero_fuel zero zero p = refl
zero_fuel zero (suc a) p = absurd (omega arith)
zero_fuel (suc n) a p = omega (arith, bit_xor_step a 0, zero_fuel n (a / 2) (omega arith))

pub bit_xor-zero : (a : ℕ) → bit_xor a 0 ≡ a
bit_xor-zero a = zero_fuel a a (omega arith)

div-two-pow-suc : (x k : ℕ) → x / 2 ^ suc k ≡ x / 2 ^ k / 2
div-two-pow-suc x k = ap (λ (m : ℕ). x / m) (pow-suc 2 k) ∙ sym (div-div-eq-div-mul x (2 ^ k) 2)

-- Shifting to the right goes through.
pub bit_xor-shift : (k a b : ℕ) → bit_xor a b / 2 ^ k ≡ bit_xor (a / 2 ^ k) (b / 2 ^ k)
bit_xor-shift zero a b =
    omega (
      arith,
      ap (λ (x : ℕ). bit_xor x b) (div-one a),
      ap (λ (x : ℕ). bit_xor (a / 1) x) (div-one b),
    )
bit_xor-shift (suc k) a b =
    div-two-pow-suc (bit_xor a b) k
    ∙ (ap (λ (x : ℕ). x / 2) (bit_xor-shift k a b)
        ∙ (bit_xor-half (a / 2 ^ k) (b / 2 ^ k)
            ∙ (ap (λ (x : ℕ). bit_xor x (b / 2 ^ k / 2)) (sym (div-two-pow-suc a k))
                ∙ ap (λ (x : ℕ). bit_xor (a / 2 ^ suc k) x) (sym (div-two-pow-suc b k)))))

-- The words stay below the bound.
lt_fuel : (k a b : ℕ) → a < 2 ^ k → b < 2 ^ k → bit_xor a b < 2 ^ k
lt_fuel zero zero zero p q = omega arith
lt_fuel zero (suc a) b p q = absurd (omega arith)
lt_fuel zero zero (suc b) p q = absurd (omega arith)
lt_fuel (suc k) a b p q = omega (arith, bit_xor_step a b, pow-suc 2 k, lt_fuel k (a / 2) (b / 2))

pub bit_xor-lt : (k a b : ℕ) → a < 2 ^ k → b < 2 ^ k → bit_xor a b < 2 ^ k
bit_xor-lt k a b = lt_fuel k a b
