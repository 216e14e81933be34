-- ===== src/Fault.antt =====
-- internal/fault/inject.go. A `*Set` is an `Option FaultSet`: nil is `none`.
pub mod Parsing
use rconfig_sim.Base.{
  ltb, ◌==◌, if◌then◌else◌, Bytes, codes, equal, ℕ, zero, suc, ◌+◌, ◌*◌, ◌%◌, ◌^◌, ◌≤◌, ◌<◌, Bool,
  true, false, not, ◌||◌, Option, none, some, List, [], ◌∷◌, arith,
}
use rconfig_sim.Text.{trim_space, split}

-- `Type`, and its `AllTypes` in stable order.
pub data Fault : Type 0 where
  auth_fail disconnect_mid slow_response malformed : Fault

abbrev pub all_faults : List Fault
all_faults = auth_fail ∷ disconnect_mid ∷ slow_response ∷ malformed ∷ []

-- The value of the constant.
abbrev pub fault_index : Fault → ℕ
fault_index auth_fail = 0
fault_index disconnect_mid = 1
fault_index slow_response = 2
fault_index malformed = 3

-- `typeNames`, `String`.
abbrev pub fault_name : Fault → Bytes
fault_name auth_fail = codes "auth_fail"
fault_name disconnect_mid = codes "disconnect_mid"
fault_name slow_response = codes "slow_response"
fault_name malformed = codes "malformed"

-- A float64, exactly: a finite one counts units of 2^-1074, with its sign.
pub data Float64 : Type 0 where
  not_a_number : Float64
  infinite : Bool → Float64
  finite : Bool → ℕ → Float64

-- 1.0.
unfoldable pub one : ℕ
one = 2 ^ 1074

-- `rate < 0 || rate > 1`; `true` is the negative sign. A comparison with a NaN is false.
unfoldable pub out_of_range : Float64 → Bool
out_of_range not_a_number = false
out_of_range (infinite negative) = true
out_of_range (finite true units) = ltb 0 units
out_of_range (finite false units) = ltb one units

-- `rate == 0`, also for -0.
unfoldable pub is_zero : Float64 → Bool
is_zero (finite negative units) = units == 0
is_zero _ = false

-- `Set`.
pub record FaultSet : Type 0 where
  pub listed : Fault → Bool
  pub rate : Float64

-- `s.enabled[t] = true`.
unfoldable pub mark : Fault → (Fault → Bool) → Fault → Bool
mark t listed u = if fault_index t == fault_index u then true else listed u

-- `parseType`.
unfoldable pub parse_type : Bytes → List Fault → Option Fault
parse_type s [] = none
parse_type s (t ∷ ts) =
    let rest = parse_type s ts in if equal (fault_name t) s then some t else rest

-- The loop over the tokens; `none` is the error of an unknown type.
unfoldable pub parse_types : List Bytes → (Fault → Bool) → Option (Fault → Bool)
parse_types [] listed = some listed
parse_types (raw ∷ toks) listed =
    let tok = trim_space raw in
    let skipped = parse_types toks listed in
    elim (parse_type tok all_faults) [
      | none ↦ if equal tok [] then skipped else none
      | some t ↦ if equal tok [] then skipped else parse_types toks (mark t listed)
    ]

-- `NewSet`.
unfoldable pub new_set : Bytes → Float64 → Option FaultSet
new_set types_csv rate =
    if out_of_range rate
    then none
    else elim (parse_types (split types_csv b',') (λ (t : Fault). false)) [
      | none ↦ none
      | some listed ↦ some (record { listed = listed; rate = rate })
    ]

-- `Enabled`.
unfoldable pub enabled : Option FaultSet → Fault → Bool
enabled none t = false
enabled (some s) t = if is_zero s.rate then false else s.listed t

-- `Empty`.
unfoldable pub is_empty : Option FaultSet → Bool
is_empty none = true
is_empty (some s) =
    if is_zero s.rate
    then true
    else not (
        s.listed auth_fail
        || s.listed disconnect_mid
        || s.listed slow_response
        || s.listed malformed)

listed_among : FaultSet → List Fault → List Fault
listed_among s [] = []
listed_among s (t ∷ ts) = let rest = listed_among s ts in if s.listed t then t ∷ rest else rest

-- `EnabledTypes`.
unfoldable pub enabled_types : Option FaultSet → List Fault
unfolding listed_among
enabled_types none = []
enabled_types (some s) = listed_among s all_faults

-- A `*rand.Rand`: the numbers that it will draw, and how many are drawn.
pub record Rng : Type 0 where
  pub draws : ℕ → ℕ
  pub drawn : ℕ

-- `Intn(n)`, for 0 < n.
unfoldable pub intn : ℕ → Rng → ℕ × Rng
intn zero r = (0, r)
intn (suc n) r = (r.draws r.drawn % suc n, record r { drawn = r.drawn + 1 })

pub intn_lt : (n : ℕ) (r : Rng) → 1 ≤ n → (intn n r).0 < n
unfolding intn
intn_lt zero r h = absurd (omega arith)
intn_lt (suc n) r h = omega arith

-- `Float64() < rate`: the draw is one of the multiples of 2^-53 below 1.
unfoldable pub below_rate : ℕ → Float64 → Bool
below_rate draw not_a_number = false
below_rate draw (infinite negative) = not negative
below_rate draw (finite true units) = false
below_rate draw (finite false units) = ltb (draw % 2 ^ 53 * 2 ^ 1021) units

-- `Roll`.
unfoldable pub roll : Option FaultSet → Fault → Rng → Bool × Rng
roll none t r = (false, r)
roll (some s) t r =
    if enabled (some s) t
    then (below_rate (r.draws r.drawn) s.rate, record r { drawn = r.drawn + 1 })
    else (false, r)
