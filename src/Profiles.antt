-- ===== src/Profiles.antt =====
-- internal/profile/profile.go: a device's profile as text, and the assignment of profiles to a fleet.
-- `parse_duration` is `time.ParseDuration`, in nanoseconds, and `parse_float` is `strconv.ParseFloat`
-- of 64 bits; `none` is an error.
pub mod Assign
pub mod Valid
use rconfig_sim.Base.{
  ltb, ◌==◌, if◌then◌else◌, length, take, Bytes, codes, equal, ℕ, zero, suc, ◌-◌, ◌*◌, Bool, true,
  false, not, ◌||◌, Option, none, some, List, [], ◌∷◌, ◌++◌,
}
use rconfig_sim.Text.Decimal.{is_digit}
use rconfig_sim.Base.Int.{ℤ, pos, negsuc}
use rconfig_sim.Base.Result.{◌>>=◌, Result, ok, err}
use rconfig_sim.Fault.{one, Float64, not_a_number, finite}
use rconfig_sim.Floats.{round, add, divide, less}
use rconfig_sim.Session.{Profile, hang_profile, latency_profile, refuse_profile, disconnect_profile}
use rconfig_sim.Text.{trim_space, has_suffix, split, cut}

pub data ProfileError : Type 0 where
  no_duration bad_hang no_delay bad_delay bad_range no_argument unknown_profile : ProfileError
  no_percent bad_percent no_profile too_many : ProfileError

-- `strings.TrimLeft(s, "0123456789.")`.
unfoldable pub trim_number : Bytes → Bytes
unfolding is_digit
trim_number [] = []
trim_number (c ∷ s) = let rest = trim_number s in if is_digit c || c == b'.' then rest else c ∷ s

-- What stands before and after the first separator, and whether there is one.
unfoldable pub cut_or : Bytes → ℕ → Bytes × Bytes × Bool
cut_or s sep = elim (cut s sep) [
  | none ↦ (s, [], false)
  | some (before, after) ↦ (before, after, true)
]

module _ (parse_duration : Bytes → Option ℤ) (parse_float : Bytes → Option Float64) where
  abbrev one_delay : Option ℤ → Result ProfileError (ℕ × ℕ)
  one_delay none = err bad_delay
  one_delay (some (negsuc d)) = err bad_delay
  one_delay (some (pos d)) = ok (d, d)

  abbrev two_delays : Option ℤ → ℤ → Result ProfileError (ℕ × ℕ)
  two_delays none hi = err bad_delay
  two_delays (some (negsuc lo)) hi = err bad_range
  two_delays (some (pos lo)) (negsuc hi) = err bad_range
  two_delays (some (pos lo)) (pos hi) = if ltb hi lo then err bad_range else ok (lo, hi)

  -- The left side, with the unit of the right side if it has none.
  unfoldable pub with_unit : Bytes → Bytes → Bytes
  unfolding trim_number
  with_unit left right = elim (parse_float left) [
    | none ↦ left
    | some x ↦ left ++ trim_number right
  ]

  -- `parseRange`.
  unfoldable pub parse_range : Bytes → Result ProfileError (ℕ × ℕ)
  unfolding with_unit cut_or
  parse_range s =
      let (left, right, is_range) = cut_or s b'-' in
      let both : Result ProfileError (ℕ × ℕ) = elim (parse_duration right) [
        | none ↦ err bad_delay
        | some hi ↦ two_delays (parse_duration (with_unit left right)) hi
      ] in
      if is_range then both else one_delay (parse_duration s)

  abbrev parse_hang : Option ℤ → Result ProfileError (Option Profile)
  parse_hang none = err bad_hang
  parse_hang (some (negsuc d)) = err bad_hang
  parse_hang (some (pos zero)) = err bad_hang
  parse_hang (some (pos (suc d))) = ok (some (hang_profile (suc d)))

  -- The profile of a kind, with the argument where there is one.
  unfoldable pub parse_kind : Bytes → Bytes → Bool → Result ProfileError (Option Profile)
  unfolding parse_range
  parse_kind kind arg has_arg =
      if equal kind (codes "hang")
      then (if has_arg then parse_hang (parse_duration arg) else err no_duration)
      else if equal kind (codes "latency")
      then (if has_arg
          then (parse_range arg >>= λ bounds. ok (some (latency_profile bounds.0 bounds.1)))
          else err no_delay)
      else if equal kind (codes "refuse") || equal kind (codes "disconnect")
      then (if has_arg
          then err no_argument
          else if equal kind (codes "refuse")
          then ok (some refuse_profile)
          else ok (some disconnect_profile))
      else err unknown_profile

  -- `ParseProfile`.
  unfoldable pub parse_profile : Bytes → Result ProfileError (Option Profile)
  unfolding parse_kind cut_or
  parse_profile text =
      let s = trim_space text in
      let (kind, arg, has_arg) = cut_or s b':' in
      if equal s [] then ok none else parse_kind kind arg has_arg

-- `Rule`.
pub record Rule : Type 0 where
  pub profile : Profile
  pub fraction : Float64

-- `pct <= 0 || pct > 100`; both are false of a NaN.
abbrev pub hundred : Float64
hundred = finite false (100 * one)

unfoldable pub bad_pct : Float64 → Bool
unfolding less
bad_pct not_a_number = false
bad_pct pct = not (less (finite false 0) pct) || less hundred pct

-- The constant `100+1e-9`.
unfoldable pub most : Float64
unfolding round
most = finite false (round (100000000001 * one) 1000000000)

unfoldable pub trim_percent : Bytes → Bytes
trim_percent s = if has_suffix s (b'%' ∷ []) then take (length s - 1) s else s

module _ (parse_duration : Bytes → Option ℤ) (parse_float : Bytes → Option Float64) where
  -- One item of the flag, with its percentage.
  unfoldable pub parse_item : Bytes → Result ProfileError (Rule × Float64)
  unfolding cut_or trim_percent bad_pct parse_profile
  parse_item item =
      let (spec, pct_spec, found) = cut_or item b'@' in
      let parsed : Result ProfileError (Rule × Float64) =
        elim (parse_float (trim_percent (trim_space pct_spec))) [
          | none ↦ err bad_percent
          | some pct ↦
              if bad_pct pct
              then err bad_percent
              else parse_profile parse_duration parse_float spec >>= λ p. elim p [
                | none ↦ err no_profile
                | some profile ↦ ok (record { profile = profile; fraction = divide pct 100 }, pct)
              ]
        ] in
      if found then parsed else err no_percent

  -- The loop of `Parse`, with the total so far.
  unfoldable pub parse_items : List Bytes → Float64 → Result ProfileError (List Rule × Float64)
  unfolding parse_item add
  parse_items [] total = ok ([], total)
  parse_items (raw ∷ items) total =
      let item = trim_space raw in
      let skipped = parse_items items total in
      let taken = parse_item item >>= λ (r : Rule × Float64).
      parse_items items (add total r.1) >>= λ (rs : List Rule × Float64). ok (r.0 ∷ rs.0, rs.1) in
      if equal item [] then skipped else taken

  -- `Parse`.
  unfoldable pub parse_rules : Bytes → Result ProfileError (List Rule)
  unfolding parse_items most
  parse_rules spec =
      parse_items (split spec b',') (finite false 0) >>= λ (rs : List Rule × Float64).
      if less most rs.1 then err too_many else ok rs.0
