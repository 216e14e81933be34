-- ===== src/Floats.antt =====
-- The sums, quotients and orders of float64 numbers that internal/profile/profile.go uses, with
-- rounding to the nearest, ties to even.
use rconfig_sim.Base.{
  ltb, ◌==◌, if◌then◌else◌, ℕ, zero, suc, ◌+◌, ◌-◌, ◌*◌, ◌/◌, ◌%◌, ◌^◌, Bool, true, false, not,
  ◌&&◌,
}
use rconfig_sim.Fault.{Float64, not_a_number, infinite, finite}

-- The bits of n, with fuel.
bits_fuel : ℕ → ℕ → ℕ
bits_fuel zero n = 0
bits_fuel (suc f) n = elim (n == 0) [ true ↦ 0 | false ↦ suc (bits_fuel f (n / 2)) ]

-- The unit that a number of so many units of 2^-1074 is rounded to: 53 bits are kept.
unfoldable pub spacing : ℕ → ℕ
unfolding bits_fuel
spacing units = 2 ^ (bits_fuel 2200 units - 53)

-- n / d, to the nearest multiple of k.
abbrev pub nearest : ℕ → ℕ → ℕ → ℕ
nearest n d k =
    let q = n / (d * k) in
    let r = n % (d * k) in
    if ltb (2 * r) (d * k)
    then q * k
    else if ltb (d * k) (2 * r)
    then (q + 1) * k
    else (q + q % 2) * k

-- n / d units, rounded.
unfoldable pub round : ℕ → ℕ → ℕ
unfolding spacing
round n d = nearest n d (spacing (n / d))

-- 2^1024, from which on a number is infinite.
unfoldable pub too_large : ℕ
too_large = 2 ^ 2098

unfoldable pub pack : Bool → ℕ → Float64
unfolding too_large
pack negative units = if ltb units too_large then finite negative units else infinite negative

-- a + b.
unfoldable pub add : Float64 → Float64 → Float64
unfolding round pack
add not_a_number b = not_a_number
add (infinite s) not_a_number = not_a_number
add (infinite s) (finite t n) = infinite s
add (infinite true) (infinite true) = infinite true
add (infinite false) (infinite false) = infinite false
add (infinite true) (infinite false) = not_a_number
add (infinite false) (infinite true) = not_a_number
add (finite s m) not_a_number = not_a_number
add (finite s m) (infinite t) = infinite t
add (finite true m) (finite true n) = pack true (round (m + n) 1)
add (finite false m) (finite false n) = pack false (round (m + n) 1)
add (finite true m) (finite false n) =
    if ltb n m then pack true (round (m - n) 1) else pack false (round (n - m) 1)
add (finite false m) (finite true n) =
    if ltb m n then pack true (round (n - m) 1) else pack false (round (m - n) 1)

-- a / d, of a positive number d that is a small int.
unfoldable pub divide : Float64 → ℕ → Float64
unfolding round
divide not_a_number d = not_a_number
divide (infinite s) d = infinite s
divide (finite s n) d = finite s (round n d)

-- a < b, which is false of a NaN.
unfoldable pub less : Float64 → Float64 → Bool
less not_a_number b = false
less a not_a_number = false
less (infinite s) (infinite t) = s && not t
less (infinite s) (finite t n) = s
less (finite s m) (infinite t) = not t
less (finite true m) (finite true n) = ltb n m
less (finite true m) (finite false n) = ltb 0 (m + n)
less (finite false m) (finite true n) = false
less (finite false m) (finite false n) = ltb m n
