-- ===== src/Text/Decimal.antt =====
-- The decimal verbs of Go's `fmt`, %d and %0wd, and `strconv.Atoi`.
pub mod Parsing
use rconfig_sim.Base.Int.{ℤ, pos, negsuc}
use rconfig_sim.Base.{
  ltb, leb, ◌==◌, if◌then◌else◌, length, replicate, Bytes, ℕ, zero, suc, ◌+◌, ◌-◌, ◌*◌, ◌/◌, ◌%◌,
  ◌^◌, Bool, true, false, ◌&&◌, Option, none, some, [], ◌∷◌, ◌++◌,
}

-- The digits of n behind `out`, with fuel: each round takes a digit, so n rounds are enough.
digits_fuel : ℕ → ℕ → Bytes → Bytes
digits_fuel zero n out = out
digits_fuel (suc f) n out = elim (ltb n 10) [
  | true ↦ (b'0' + n) ∷ out
  | false ↦ digits_fuel f (n / 10) ((b'0' + n % 10) ∷ out)
]

-- `%d` of a number that is not negative.
unfoldable pub decimal : ℕ → Bytes
unfolding digits_fuel
decimal n = digits_fuel (suc n) n []

-- `%0wd` of such a number.
unfoldable pub decimal_padded : ℕ → ℕ → Bytes
unfolding decimal
decimal_padded w n = replicate (w - length (decimal n)) b'0' ++ decimal n

-- `%d` of a - b.
unfoldable pub decimal_difference : ℕ → ℕ → Bytes
unfolding decimal
decimal_difference a b = if leb b a then decimal (a - b) else b'-' ∷ decimal (b - a)

unfoldable pub is_digit : ℕ → Bool
is_digit c = leb b'0' c && leb c b'9'

-- The number that digits spell behind n; `none` at a byte that is no digit.
unfoldable pub value_of : ℕ → Bytes → Option ℕ
unfolding is_digit
value_of n [] = some n
value_of n (c ∷ s) =
    let rest = value_of (n * 10 + (c - b'0')) s in if is_digit c then rest else none

unfoldable pub unsigned : Bytes → Option ℕ
unfolding value_of
unsigned [] = none
unsigned (c ∷ s) = value_of 0 (c ∷ s)

abbrev pub positive : Option ℕ → Option ℤ
positive none = none
positive (some n) = if ltb n (2 ^ 63) then some (pos n) else none

abbrev pub negative : Option ℕ → Option ℤ
negative none = none
negative (some zero) = some (pos 0)
negative (some (suc n)) = if ltb n (2 ^ 63) then some (negsuc n) else none

-- `strconv.Atoi`; `none` is the error of a text that is no number, or none that an int holds.
unfoldable pub atoi : Bytes → Option ℤ
unfolding unsigned
atoi [] = none
atoi (c ∷ s) =
    if c == b'-'
    then negative (unsigned s)
    else if c == b'+'
    then positive (unsigned s)
    else positive (unsigned (c ∷ s))
