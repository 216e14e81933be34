-- ===== src/Server/Logging.antt =====
-- internal/sshsrv/server.go: the groups of devices that `logProfiles` logs. `spec` is `String` of a
-- profile.
pub mod Totals
use rconfig_sim.Base.{
  ltb, if◌then◌else◌, length, take, Bytes, equal, ℕ, Bool, none, some, List, [], ◌∷◌, ◌++◌, map,
}
use rconfig_sim.Loader.{Device}
use rconfig_sim.Session.{Profile}
use rconfig_sim.Server.Start.{find_profile}

-- A line of the log: the profile, the number of its devices, and the names that are logged.
pub record LogLine : Type 0 where
  pub spec_key : Bytes
  pub devices : ℕ
  pub hostnames : List Bytes
  pub is_truncated : Bool

-- `hosts[key] = append(hosts[key], host)`, the keys in the order in which they come up.
unfoldable pub add_host : Bytes → Bytes → List (Bytes × List Bytes) → List (Bytes × List Bytes)
add_host key host [] = (key, host ∷ []) ∷ []
add_host key host ((k, names) ∷ groups) =
    let rest = add_host key host groups in
    if equal k key then (k, names ++ (host ∷ [])) ∷ groups else (k, names) ∷ rest

unfoldable pub group_hosts :
    (Profile → Bytes)
    → List (ℕ × Profile)
    → List Device
    → List (Bytes × List Bytes)
    → List (Bytes × List Bytes)
unfolding add_host
group_hosts spec profiles [] groups = groups
group_hosts spec profiles (d ∷ ds) groups = elim (find_profile d.port profiles) [
  | none ↦ group_hosts spec profiles ds groups
  | some p ↦ group_hosts spec profiles ds (add_host (spec p) d.hostname groups)
]

abbrev pub max_logged_hosts : ℕ
max_logged_hosts = 50

unfoldable pub log_line : Bytes × List Bytes → LogLine
log_line (key, names) =
    let logged =
      if ltb max_logged_hosts (length names) then take max_logged_hosts names else names in
    record {
      spec_key = key;
      devices = length names;
      hostnames = logged;
      is_truncated = ltb (length logged) (length names);
    }

-- `logProfiles`.
unfoldable pub log_profiles : (Profile → Bytes) → List (ℕ × Profile) → List Device → List LogLine
unfolding group_hosts log_line
log_profiles spec [] devs = []
log_profiles spec (p ∷ ps) devs = map log_line (group_hosts spec (p ∷ ps) devs [])
