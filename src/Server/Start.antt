-- ===== src/Server/Start.antt =====
-- internal/sshsrv/server.go: `New`, `resolveProfiles` and the session's time limit of `handleConn`.
-- `live` counts the mapped files of the process.
pub mod Pinned
pub mod Ready
use rconfig_sim.Base.{
  ◌==◌, if◌then◌else◌, Bytes, codes, equal, ℕ, ◌+◌, Bool, not, ◌||◌, Option, none, some, List, [],
  ◌∷◌,
}
use rconfig_sim.Generator.Random.{serial_for}
use rconfig_sim.Loader.Mapping.{load_for_listener}
use rconfig_sim.Registry.{unknown_drivers}
use rconfig_sim.Base.Int.{ℤ}
use rconfig_sim.Base.Result.{◌>>=◌, Result, ok, err}
use rconfig_sim.Fault.{Float64}
use rconfig_sim.Loader.{Device, LoadError, Listener}
use rconfig_sim.Profiles.{parse_profile, ProfileError, Rule}
use rconfig_sim.Profiles.Assign.{assign}
use rconfig_sim.Session.{Profile, hang_profile}

-- What `New` does not do itself: `time.ParseDuration`, `strconv.ParseFloat`, `sha256`, the disk.
pub record Outside : Type 0 where
  pub parse_duration : Bytes → Option ℤ
  pub parse_float : Bytes → Option Float64
  pub sha256 : Bytes → Bytes
  pub disk : Bytes → Option Bytes

-- The fields of `Config` that `New` looks at; `host_key` is what `loadOrGenerateHostKey` gives, and
-- `manifest` the rows of the manifest, `none` being an error.
pub record StartConfig : Type 0 where
  pub max_concurrent_sessions : ℕ
  pub listener : Listener
  pub ssh_auth_mode : Bytes
  pub host_key : Option Bytes
  pub manifest : Option (List (List Bytes))
  pub device_profiles : List Rule
  pub profile_seed : ℕ

pub data StartError : Type 0 where
  bad_cap bad_port_count bad_auth_mode bad_host_key no_devices : StartError
  load_failed : LoadError → StartError
  unknown_driver : List Bytes → StartError
  bad_profile : ProfileError → StartError

-- The parts of the new `Server`.
pub record Started : Type 0 where
  pub cap : ℕ
  pub devices : List Device
  pub total_map : ℕ
  pub profiles : List (ℕ × Profile)

-- `s.profiles[port]`.
unfoldable pub find_profile : ℕ → List (ℕ × Profile) → Option Profile
find_profile port [] = none
find_profile port ((p, profile) ∷ more) =
    let rest = find_profile port more in if p == port then some profile else rest

abbrev pub put_profile : ℕ → Option Profile → List (ℕ × Profile) → List (ℕ × Profile)
put_profile port none out = out
put_profile port (some p) out = (port, p) ∷ out

-- The manifest's profile, or else the one that the rules assign.
abbrev pub or_assigned : Option Profile → Option Profile → Option Profile
or_assigned (some p) q = some p
or_assigned none q = q

abbrev pub drivers : List Device → List Bytes
drivers [] = []
drivers (d ∷ ds) = d.driver ∷ drivers ds

abbrev pub sizes : List Device → ℕ
sizes [] = 0
sizes (d ∷ ds) = d.size + sizes ds

abbrev pub with_profiles :
    StartConfig → List Device → Result ProfileError (List (ℕ × Profile)) → Result StartError Started
with_profiles cfg devs (err e) = err (bad_profile e)
with_profiles cfg devs (ok profiles) = ok (record {
  cap = cfg.max_concurrent_sessions;
  devices = devs;
  total_map = sizes devs;
  profiles = profiles;
})

unfoldable pub known_mode : Bytes → Bool
known_mode mode =
    equal mode []
    || (equal mode (codes "password") || (equal mode (codes "driver") || equal mode (codes "none")))

module _ (o : Outside) where
  -- The loop of `resolveProfiles`, with the map so far.
  unfoldable pub resolve_from :
      List Rule → ℕ → List (ℕ × Profile) → List Device → Result ProfileError (List (ℕ × Profile))
  resolve_from rules seed out [] = ok out
  resolve_from rules seed out (d ∷ ds) =
      parse_profile o.parse_duration o.parse_float d.profile >>= λ p.
      resolve_from rules seed
        (put_profile d.port (or_assigned p (assign d.hostname seed rules)) out) ds

  -- `resolveProfiles`.
  unfoldable pub resolve_profiles :
      List Device → List Rule → ℕ → Result ProfileError (List (ℕ × Profile))
  unfolding resolve_from
  resolve_profiles devs rules seed = resolve_from rules seed [] devs

  -- `New`, from the loaded devices on.
  unfoldable pub with_devices : StartConfig → List Device → Result StartError Started
  unfolding resolve_profiles
  with_devices cfg [] = err no_devices
  with_devices cfg (d ∷ devs) = elim (unknown_drivers (drivers (d ∷ devs))) [
    | bad ∷ more ↦ err (unknown_driver (bad ∷ more))
    | [] ↦
        with_profiles cfg (d ∷ devs)
          (resolve_profiles (d ∷ devs) cfg.device_profiles cfg.profile_seed)
  ]

  -- The load, and what follows.
  unfoldable pub load_devices : StartConfig → ℕ → Result StartError Started × ℕ
  unfolding with_devices
  load_devices cfg live =
      let (loaded, left) =
        load_for_listener (serial_for o.sha256) o.disk cfg.listener cfg.manifest live in
      (elim loaded [ err e ↦ err (load_failed e) | ok devs ↦ with_devices cfg devs ], left)

  -- `New`.
  unfoldable pub new_server : StartConfig → ℕ → Result StartError Started × ℕ
  unfolding load_devices known_mode
  new_server cfg live =
      if cfg.max_concurrent_sessions == 0
      then (err bad_cap, live)
      else if cfg.listener.port_count == 0
      then (err bad_port_count, live)
      else if not (known_mode cfg.ssh_auth_mode)
      then (err bad_auth_mode, live)
      else elim cfg.host_key [ none ↦ (err bad_host_key, live) | some key ↦ load_devices cfg live ]

-- `HangDuration`, and the time limit of a session, in nanoseconds; 0 stands for five minutes.
unfoldable pub hang_duration : Option Profile → ℕ
hang_duration (some (hang_profile d)) = d
hang_duration _ = 0

unfoldable pub session_limit : ℕ → Option Profile → ℕ
unfolding hang_duration
session_limit max_session profile =
    (if max_session == 0 then 300000000000 else max_session) + hang_duration profile
