-- ===== src/Server/Logging/Totals.antt =====
-- What the log of the profiles counts.
use rconfig_sim.Base.{
  Bool-cases, Option-cases, length, length-append, Bytes, equal, ℕ, suc, ◌+◌, ◌≡◌, refl, ap, ◌∙◌,
  inl, inr, none, some, List, [], ◌∷◌, map, arith,
}
use rconfig_sim.Server.Logging.{add_host, group_hosts, log_line, log_profiles, LogLine}
use rconfig_sim.Loader.{Device}
use rconfig_sim.Session.{Profile}
use rconfig_sim.Server.Start.{find_profile}

-- The devices of the groups, and those that have a profile.
abbrev grouped : List (Bytes × List Bytes) → ℕ
grouped [] = 0
grouped ((k, names) ∷ groups) = length names + grouped groups

abbrev pub logged_devices : List LogLine → ℕ
logged_devices [] = 0
logged_devices (l ∷ ls) = l.devices + logged_devices ls

abbrev pub profiled : List (ℕ × Profile) → List Device → ℕ
profiled profiles [] = 0
profiled profiles (d ∷ ds) =
    (elim (find_profile d.port profiles) [ none ↦ 0 | some p ↦ 1 ]) + profiled profiles ds

add_host-grouped :
    (key host : Bytes) (groups : List (Bytes × List Bytes))
    → grouped (add_host key host groups) ≡ suc (grouped groups)
unfolding add_host
add_host-grouped key host [] = refl
add_host-grouped key host ((k, names) ∷ groups) = elim (Bool-cases (equal k key)) [
  | inl t ↦ let n = length-append names (host ∷ []) in rw t (omega arith)
  | inr t ↦ let n = add_host-grouped key host groups in rw t (omega arith)
]

group_hosts-grouped :
    (spec : Profile → Bytes) (profiles : List (ℕ × Profile)) (ds : List Device)
    (groups : List (Bytes × List Bytes))
    → grouped (group_hosts spec profiles ds groups) ≡ grouped groups + profiled profiles ds
unfolding group_hosts
group_hosts-grouped spec profiles [] groups = omega arith
group_hosts-grouped spec profiles (d ∷ ds) groups =
    elim (Option-cases (find_profile d.port profiles)) [
      | inl e ↦
          let n = group_hosts-grouped spec profiles ds groups in rw (e, group_hosts) (omega arith)
      | inr (p, e) ↦
          let n = group_hosts-grouped spec profiles ds (add_host (spec p) d.hostname groups) in
          let m = add_host-grouped (spec p) d.hostname groups in rw (e, group_hosts) (omega arith)
    ]

-- The log counts every device that has a profile once.
pub log_profiles-logged_devices :
    (spec : Profile → Bytes) (profiles : List (ℕ × Profile)) (ds : List Device)
    → logged_devices (log_profiles spec profiles ds) ≡ profiled profiles ds
unfolding log_profiles log_line find_profile
log_profiles-logged_devices spec [] ds = none_profiled ds
  where
    none_profiled : (es : List Device) → 0 ≡ profiled [] es
    none_profiled [] = refl
    none_profiled (e ∷ es) = omega (arith, none_profiled es)
log_profiles-logged_devices spec (p ∷ ps) ds =
    let z : 0 + profiled (p ∷ ps) ds ≡ profiled (p ∷ ps) ds = omega arith in
    lines (group_hosts spec (p ∷ ps) ds []) ∙ (group_hosts-grouped spec (p ∷ ps) ds [] ∙ z)
  where
    lines : (gs : List (Bytes × List Bytes)) → logged_devices (map log_line gs) ≡ grouped gs
    lines [] = refl
    lines ((k, names) ∷ gs) = ap (λ (n : ℕ). length names + n) (lines gs)
