-- ===== src/Profiles/Valid.antt =====
-- What the parsers let through.
use rconfig_sim.Floats.{add, divide, less}
use mathlib.Core.Path.{subst}
use rconfig_sim.Text.{trim_space, split}
use rconfig_sim.Base.{
  ltb, Bool-cases, Option-cases, All, Bytes, codes, equal, ℕ, zero, suc, ◌≤◌, ◌<◌, ◌≡◌, refl, inl,
  inr, Bool, false, ◌||◌, Option, none, some, List, [], ◌∷◌, arith, if-both,
}
use rconfig_sim.Base.Int.{ℤ, pos, negsuc}
use rconfig_sim.Base.Result.{◌>>=◌, Result-cases, Result, ok, err}
use rconfig_sim.Session.{Profile, hang_profile, latency_profile}
use rconfig_sim.Fault.{Float64, finite}
use rconfig_sim.Profiles.{
  cut_or, parse_range, parse_kind, parse_profile, bad_pct, most, trim_percent, parse_item,
  parse_items, parse_rules, ProfileError, no_profile, Rule, one_delay, two_delays, parse_hang,
}

-- A hang lasts, and a latency has its bounds in order.
abbrev pub IsSound : Profile → Type 0
IsSound (hang_profile d) = 0 < d
IsSound (latency_profile lo hi) = lo ≤ hi
IsSound _ = Unit

abbrev IsSoundParse : Result ProfileError (Option Profile) → Type 0
IsSoundParse (ok (some p)) = IsSound p
IsSoundParse _ = Unit

abbrev InOrder : Result ProfileError (ℕ × ℕ) → Type 0
InOrder (ok (lo, hi)) = lo ≤ hi
InOrder (err e) = Unit

module _ (parse_duration : Bytes → Option ℤ) (parse_float : Bytes → Option Float64) where
  one_delay-InOrder : (o : Option ℤ) → InOrder (one_delay parse_duration parse_float o)
  one_delay-InOrder none = tt
  one_delay-InOrder (some (negsuc d)) = tt
  one_delay-InOrder (some (pos d)) = omega arith

  two_delays-InOrder :
      (o : Option ℤ) (hi : ℤ) → InOrder (two_delays parse_duration parse_float o hi)
  two_delays-InOrder none hi = tt
  two_delays-InOrder (some (negsuc lo)) hi = tt
  two_delays-InOrder (some (pos lo)) (negsuc hi) = tt
  two_delays-InOrder (some (pos lo)) (pos hi) = elim (Bool-cases (ltb hi lo)) [
    | inl t ↦ rw t tt
    | inr t ↦ rw t (ground arith)
  ]

  parse_range-InOrder : (s : Bytes) → InOrder (parse_range parse_duration parse_float s)
  unfolding parse_range
  parse_range-InOrder s = elim (Bool-cases (cut_or s b'-').2) [
    | inr t ↦ rw (t, parse_range) (one_delay-InOrder (parse_duration s))
    | inl t ↦ elim (Option-cases (parse_duration (cut_or s b'-').1)) [
      | inl e ↦ rw (t, e, parse_range) tt
      | inr (hi, e) ↦ rw (t, e, parse_range) (two_delays-InOrder _ hi)
    ]
  ]

  parse_hang-IsSoundParse : (o : Option ℤ) → IsSoundParse (parse_hang parse_duration parse_float o)
  parse_hang-IsSoundParse none = tt
  parse_hang-IsSoundParse (some (negsuc d)) = tt
  parse_hang-IsSoundParse (some (pos zero)) = tt
  parse_hang-IsSoundParse (some (pos (suc d))) = omega arith

  latency-IsSoundParse :
      (o : Result ProfileError (ℕ × ℕ))
      → InOrder o
      → IsSoundParse (o >>= λ bounds. ok (some (latency_profile bounds.0 bounds.1)))
  latency-IsSoundParse (ok (lo, hi)) h = h
  latency-IsSoundParse (err e) h = tt

  parse_kind-IsSoundParse :
      (kind arg : Bytes) (has_arg : Bool)
      → IsSoundParse (parse_kind parse_duration parse_float kind arg has_arg)
  unfolding parse_kind
  parse_kind-IsSoundParse kind arg has_arg =
      let P = IsSoundParse in
      if-both P (equal kind (codes "hang"))
        (if-both P has_arg (parse_hang-IsSoundParse (parse_duration arg)) tt)
        (if-both P (equal kind (codes "latency"))
          (if-both P has_arg
            (latency-IsSoundParse (parse_range parse_duration parse_float arg)
              (parse_range-InOrder arg))
            tt)
          (if-both P (equal kind (codes "refuse") || equal kind (codes "disconnect"))
            (if-both P has_arg tt (if-both P (equal kind (codes "refuse")) tt tt)) tt))

  parse_profile-IsSoundParse :
      (text : Bytes) → IsSoundParse (parse_profile parse_duration parse_float text)
  unfolding parse_profile
  parse_profile-IsSoundParse text =
      let (kind, arg, has_arg) = cut_or (trim_space text) b':' in
      if-both IsSoundParse (equal (trim_space text) []) tt
        (parse_kind-IsSoundParse kind arg has_arg)

  -- A profile that is accepted is sound.
  pub parse_profile-IsSound :
      (text : Bytes) (p : Profile)
      → parse_profile parse_duration parse_float text ≡ ok (some p)
      → IsSound p
  parse_profile-IsSound text p h = let k = parse_profile-IsSoundParse text in rw h at k

  abbrev IsSoundItem : Result ProfileError (Rule × Float64) → Type 0
  IsSoundItem (ok (r, pct)) =
      IsSound r.profile × (r.fraction ≡ divide pct 100) × (bad_pct pct ≡ false)
  IsSoundItem (err e) = Unit

  item_of-IsSoundItem :
      (o : Result ProfileError (Option Profile)) (pct : Float64)
      → IsSoundParse o
      → bad_pct pct ≡ false
      → IsSoundItem (
          o >>= λ p. elim p [
            | none ↦ err no_profile
            | some profile ↦ ok (record { profile = profile; fraction = divide pct 100 }, pct)
          ])
  item_of-IsSoundItem (err e) pct h k = tt
  item_of-IsSoundItem (ok none) pct h k = tt
  item_of-IsSoundItem (ok (some p)) pct h k = (h, refl, k)

  parse_item-IsSoundItem : (item : Bytes) → IsSoundItem (parse_item parse_duration parse_float item)
  unfolding parse_item
  parse_item-IsSoundItem item =
      let (spec, pct_spec, found) = cut_or item b'@' in
      if-both IsSoundItem found
        (elim (Option-cases (parse_float (trim_percent (trim_space pct_spec)))) [
          | inl e ↦ rw e tt
          | inr (pct, e) ↦ rw e (elim (Bool-cases (bad_pct pct)) [
            | inl t ↦ rw t tt
            | inr t ↦ rw t (
                item_of-IsSoundItem (parse_profile parse_duration parse_float spec) pct
                  (parse_profile-IsSoundParse spec) t)
          ])
        ])
        tt

  -- Sound rules, each with its share of a percentage that was let through.
  abbrev pub IsSoundRule : Rule → Type 0
  IsSoundRule r =
      IsSound r.profile × ((pct : Float64) × (r.fraction ≡ divide pct 100) × (bad_pct pct ≡ false))

  abbrev IsSoundItems : Result ProfileError (List Rule × Float64) → Type 0
  IsSoundItems (ok (rules, total)) = All IsSoundRule rules
  IsSoundItems (err e) = Unit

  cons-IsSoundItems :
      (r : Rule) (o : Result ProfileError (List Rule × Float64))
      → IsSoundRule r
      → IsSoundItems o
      → IsSoundItems (o >>= λ (rs : List Rule × Float64). ok (r ∷ rs.0, rs.1))
  cons-IsSoundItems r (err e) h k = tt
  cons-IsSoundItems r (ok (rules, total)) h k = (h, k)

  parse_items-IsSoundItems :
      (items : List Bytes) (total : Float64)
      → IsSoundItems (parse_items parse_duration parse_float items total)
  unfolding parse_items
  parse_items-IsSoundItems [] total = tt
  parse_items-IsSoundItems (raw ∷ items) total =
      if-both IsSoundItems (equal (trim_space raw) []) (parse_items-IsSoundItems items total)
        (elim (Result-cases (parse_item parse_duration parse_float (trim_space raw))) [
          | inr (e, q) ↦ rw q tt
          | inl ((r, pct), q) ↦
              let k = parse_item-IsSoundItem (trim_space raw) in
              let (s, f, b) = rw q at k in
              rw q (
                cons-IsSoundItems r (parse_items parse_duration parse_float items (add total pct))
                  (s, (pct, f, b)) (parse_items-IsSoundItems items (add total pct)))
        ])

  -- The rules of a fleet that are accepted are sound: a hang lasts, a latency has its bounds in order,
  -- and every rule has a hundredth of a percentage that the range check lets through.
  pub parse_rules-IsSoundRule :
      (spec : Bytes) (rules : List Rule)
      → parse_rules parse_duration parse_float spec ≡ ok rules
      → All IsSoundRule rules
  unfolding parse_rules
  parse_rules-IsSoundRule spec rules h =
      elim (Result-cases
        (parse_items parse_duration parse_float (split spec b',') (finite false 0))) [
          | inr (e, q) ↦ let k = rw (q, parse_rules) at h in absurd (ground arith)
          | inl ((rs, total), q) ↦
              let a = parse_items-IsSoundItems (split spec b',') (finite false 0) in
              let b = rw q at a in
              let k = rw (q, parse_rules) at h in
              elim (Bool-cases (less most total)) [
                | inl t ↦ let j = rw t at k in absurd (ground arith)
                | inr t ↦
                    let j = rw t at k in
                    let e : rs ≡ rules = cc in subst (λ (l : List Rule). All IsSoundRule l) e b
              ]
        ]
