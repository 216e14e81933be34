-- ===== src/Text/Decimal/Parsing.antt =====
-- Reading back what %d prints.
use rconfig_sim.Base.Int.{pos}
use rconfig_sim.Base.{
  ltb, ◌==◌, lt→ltb, Bool-cases, length, replicate, All, Bytes, Lacks, ℕ, zero, suc, ◌+◌, ◌-◌, ◌/◌,
  ◌%◌, ◌^◌, ◌<◌, ◌≡◌, refl, sym, ap, ◌∙◌, ◌≢◌, inl, inr, true, false, some, [], ◌∷◌, ◌++◌, arith,
}
use rconfig_sim.Text.Decimal.{
  decimal, decimal_padded, is_digit, value_of, unsigned, atoi, digits_fuel,
}

abbrev pub IsDigits : Bytes → Type 0
IsDigits s = All (λ (c : ℕ). is_digit c ≡ true) s

IsDigits-digits_fuel :
    (f n : ℕ) (out : Bytes) → n < f → IsDigits out → IsDigits (digits_fuel f n out)
unfolding digits_fuel
IsDigits-digits_fuel zero n out h k = k
IsDigits-digits_fuel (suc f) n out h k = elim (Bool-cases (ltb n 10)) [
  | inl t ↦ rw (t, digits_fuel) (unfold is_digit in (ground arith, k))
  | inr t ↦
      rw (t, digits_fuel)
        (IsDigits-digits_fuel f (n / 10) ((b'0' + n % 10) ∷ out) (ground arith)
          ((unfold is_digit in ground arith), k))
]

pub decimal-IsDigits : (n : ℕ) → IsDigits (decimal n)
unfolding decimal
decimal-IsDigits n = IsDigits-digits_fuel (suc n) n [] (omega arith) tt

value_of-digits_fuel :
    (f n : ℕ) (out : Bytes) → n < f → value_of 0 (digits_fuel f n out) ≡ value_of n out
unfolding digits_fuel
value_of-digits_fuel zero n out h = absurd (omega arith)
value_of-digits_fuel (suc f) n out h = elim (Bool-cases (ltb n 10)) [
  | inl t ↦ rw (t, digits_fuel) (unfold value_of is_digit in ground arith)
  | inr t ↦
      rw (t, digits_fuel)
        (value_of-digits_fuel f (n / 10) ((b'0' + n % 10) ∷ out) (ground arith)
          ∙ (unfold value_of is_digit in ground arith))
]

pub value_of-decimal : (n : ℕ) → value_of 0 (decimal n) ≡ some n
unfolding decimal
value_of-decimal n = value_of-digits_fuel (suc n) n [] (omega arith) ∙ (unfold value_of in refl)

decimal-ne-nil_fuel : (f n : ℕ) (out : Bytes) → n < f → digits_fuel f n out ≢ []
unfolding digits_fuel
decimal-ne-nil_fuel zero n out h = absurd (omega arith)
decimal-ne-nil_fuel (suc f) n out h = elim (Bool-cases (ltb n 10)) [
  | inl t ↦ rw (t, digits_fuel) (λ e. cc)
  | inr t ↦
      rw (t, digits_fuel) (decimal-ne-nil_fuel f (n / 10) ((b'0' + n % 10) ∷ out) (ground arith))
]

pub decimal-ne-nil : (n : ℕ) → decimal n ≢ []
unfolding decimal
decimal-ne-nil n = decimal-ne-nil_fuel (suc n) n [] (omega arith)

atoi_digits :
    (s : Bytes) (n : ℕ)
    → IsDigits s
    → value_of 0 s ≡ some n
    → s ≢ []
    → n < 2 ^ 63
    → atoi s ≡ some (pos n)
unfolding atoi unsigned is_digit
atoi_digits [] n d v e h = absurd (e refl)
atoi_digits (c ∷ s) n d v e h =
    let a : (c == b'-') ≡ false = ground arith in
    let b : (c == b'+') ≡ false = ground arith in rw (a, b, v, lt→ltb n (2 ^ 63) h) refl

-- A decimal print is read back, up to the largest int.
pub atoi-decimal : (n : ℕ) → n < 2 ^ 63 → atoi (decimal n) ≡ some (pos n)
atoi-decimal n =
    atoi_digits (decimal n) n (decimal-IsDigits n) (value_of-decimal n) (decimal-ne-nil n)

pub decimal-injective : (m n : ℕ) → decimal m ≡ decimal n → m ≡ n
decimal-injective m n e =
    let h : some m ≡ some n = sym (value_of-decimal m) ∙ (ap (value_of 0) e ∙ value_of-decimal n) in
    cc

digits-Lacks : (b : ℕ) (s : Bytes) → is_digit b ≡ false → IsDigits s → Lacks b s
digits-Lacks b [] h d = tt
digits-Lacks b (c ∷ s) h d = ((λ e. let k = d.0 in cc), digits-Lacks b s h d.1)

-- A decimal print holds no separator.
pub decimal-Lacks : (b n : ℕ) → is_digit b ≡ false → Lacks b (decimal n)
decimal-Lacks b n h = digits-Lacks b (decimal n) h (decimal-IsDigits n)

value_of-zeros : (k : ℕ) (s : Bytes) → value_of 0 (replicate k b'0' ++ s) ≡ value_of 0 s
unfolding value_of is_digit
value_of-zeros zero s = refl
value_of-zeros (suc k) s = value_of-zeros k s

-- Padding loses nothing.
pub decimal_padded-injective : (w m n : ℕ) → decimal_padded w m ≡ decimal_padded w n → m ≡ n
unfolding decimal_padded
decimal_padded-injective w m n e =
    let a = value_of-zeros (w - length (decimal m)) (decimal m) ∙ value_of-decimal m in
    let b = value_of-zeros (w - length (decimal n)) (decimal n) ∙ value_of-decimal n in
    let h : some m ≡ some n = sym a ∙ (ap (value_of 0) e ∙ b) in cc
