-- ===== src/Server/Start/Pinned.antt =====
-- Which profile a device has.
use rconfig_sim.Base.{
  ◌==◌, All, ℕ, ◌≡◌, refl, sym, ap, ◌∙◌, inl, inr, true, false, Option, none, some, List, [], ◌∷◌,
  arith,
}
use rconfig_sim.Base.Result.{Result-cases, Result, ok}
use rconfig_sim.Loader.{Device}
use rconfig_sim.Profiles.{parse_profile, ProfileError, Rule}
use rconfig_sim.Profiles.Assign.{assign}
use rconfig_sim.Server.Start.{
  find_profile, put_profile, or_assigned, resolve_from, resolve_profiles, Outside,
}
use rconfig_sim.Session.{Profile}

-- No device listens on the port.
abbrev pub FreePort : ℕ → List Device → Type 0
FreePort port [] = Unit
FreePort port (d ∷ ds) = ((d.port == port) ≡ false) × FreePort port ds

-- No port is that of two devices.
abbrev pub DistinctPorts : List Device → Type 0
DistinctPorts [] = Unit
DistinctPorts (d ∷ ds) = FreePort d.port ds × DistinctPorts ds

put_profile-other :
    (port p : ℕ) (q : Option Profile) (out : List (ℕ × Profile))
    → (p == port) ≡ false
    → find_profile port (put_profile p q out) ≡ find_profile port out
unfolding find_profile
put_profile-other port p none out h = refl
put_profile-other port p (some q) out h = rw h refl

put_profile_self :
    (port : ℕ) (q : Option Profile) (out : List (ℕ × Profile))
    → find_profile port out ≡ none
    → find_profile port (put_profile port q out) ≡ q
unfolding find_profile
put_profile_self port none out h = h
put_profile_self port (some q) out h = let e : (port == port) ≡ true = ground arith in rw e refl

module _ (o : Outside) (rules : List Rule) (seed : ℕ) where
  abbrev parsed : Device → Result ProfileError (Option Profile)
  parsed d = parse_profile o.parse_duration o.parse_float d.profile

  -- The manifest's profile decides, and where it has none the rules.
  abbrev pub Pinned : List (ℕ × Profile) → Device → Type 0
  Pinned res d =
      (p : Option Profile) × (parsed d ≡ ok p)
      × (find_profile d.port res ≡ or_assigned p (assign d.hostname seed rules))

  resolve_from-FreePort :
      (ds : List Device) (out res : List (ℕ × Profile)) (port : ℕ)
      → FreePort port ds
      → resolve_from o rules seed out ds ≡ ok res
      → find_profile port res ≡ find_profile port out
  unfolding resolve_from
  resolve_from-FreePort [] out res port f h =
      let e : out ≡ res = cc in ap (find_profile port) (sym e)
  resolve_from-FreePort (d ∷ ds) out res port f h = elim (Result-cases (parsed d)) [
    | inr (e, q) ↦ let k = rw q at h in absurd (ground arith)
    | inl (p, q) ↦
        let k = rw q at h in
        let c = or_assigned p (assign d.hostname seed rules) in
        resolve_from-FreePort ds (put_profile d.port c out) res port f.1 k
        ∙ put_profile-other port d.port c out f.0
  ]

  -- The ports of the devices have no profile yet.
  abbrev Vacant : List (ℕ × Profile) → List Device → Type 0
  Vacant out ds = All (λ (d : Device). find_profile d.port out ≡ none) ds

  put_profile-Vacant :
      (port : ℕ) (q : Option Profile) (out : List (ℕ × Profile)) (ds : List Device)
      → FreePort port ds
      → Vacant out ds
      → Vacant (put_profile port q out) ds
  put_profile-Vacant port q out [] f v = tt
  put_profile-Vacant port q out (d ∷ ds) f v =
      let e : (port == d.port) ≡ false = let g = f.0 in ground arith in
      (put_profile-other d.port port q out e ∙ v.0, put_profile-Vacant port q out ds f.1 v.1)

  resolve_from-Pinned :
      (ds : List Device) (out res : List (ℕ × Profile))
      → DistinctPorts ds
      → Vacant out ds
      → resolve_from o rules seed out ds ≡ ok res
      → All (Pinned res) ds
  unfolding resolve_from
  resolve_from-Pinned [] out res n v h = tt
  resolve_from-Pinned (d ∷ ds) out res n v h = elim (Result-cases (parsed d)) [
    | inr (e, q) ↦ let k = rw q at h in absurd (ground arith)
    | inl (p, q) ↦
        let k = rw q at h in
        let c = or_assigned p (assign d.hostname seed rules) in
        let next = put_profile d.port c out in
        (
          (
            p,
            q,
            resolve_from-FreePort ds next res d.port n.0 k ∙ put_profile_self d.port c out v.0,
          ),
          resolve_from-Pinned ds next res n.1 (put_profile-Vacant d.port c out ds n.0 v.1) k,
        )
  ]

  -- Where the profiles are resolved, and no two devices have one port, the profile of a device is the
  -- one that its manifest column spells, or with no such profile the one that the rules assign to its
  -- hostname.
  pub resolve_profiles-Pinned :
      (ds : List Device) (res : List (ℕ × Profile))
      → DistinctPorts ds
      → resolve_profiles o ds rules seed ≡ ok res
      → All (Pinned res) ds
  unfolding resolve_profiles find_profile
  resolve_profiles-Pinned ds res n h = resolve_from-Pinned ds [] res n (vacant ds) h
    where
      vacant : (es : List Device) → Vacant [] es
      vacant [] = tt
      vacant (e ∷ es) = (refl, vacant es)
