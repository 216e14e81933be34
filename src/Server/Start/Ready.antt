-- ===== src/Server/Start/Ready.antt =====
-- What a server that starts is made of.
use rconfig_sim.Loader.Mapping.{load_for_listener}
use rconfig_sim.Base.{
  ◌==◌, Bool-cases, Option-cases, All, Bytes, ℕ, ◌+◌, ◌<◌, ◌≡◌, refl, ◌≢◌, ◌⊎◌, inl, inr, not, List,
  [], ◌∷◌, arith, In, if-both,
}
use rconfig_sim.Generator.Random.{serial_for}
use rconfig_sim.Loader.Mapping.Fields.{IsOwn, AllOwn, load_for_listener-AllOwn}
use rconfig_sim.Registry.Known.{driver_for-unknown_drivers}
use rconfig_sim.Registry.{driver_name, driver_for, unknown_drivers}
use rconfig_sim.Base.Result.{Result-cases, Result, ok, err}
use rconfig_sim.Loader.{Loaded, Device, Listener}
use rconfig_sim.Loader.Mapping.Leaks.{held, IsMapped, IsBalanced, load_for_listener-IsBalanced}
use rconfig_sim.Server.Start.{
  drivers, known_mode, resolve_profiles, with_devices, load_devices, new_server, Outside,
  StartConfig, StartError, load_failed, unknown_driver, bad_profile, Started,
}

-- The device can be served: it is the listener's, it has the whole of its file, and the driver that
-- serves it is the one that the manifest names, if it names one.
abbrev pub IsServed : Outside → Listener → Device → Type 0
IsServed o l d =
    IsOwn l d
    × IsMapped o.disk d
    × ((d.driver ≡ []) ⊎ (driver_name (driver_for d.driver) ≡ d.driver))

-- A late error is found after the load.
abbrev pub IsLate : StartError → Type 0
IsLate (unknown_driver names) = Unit
IsLate (bad_profile e) = Unit
IsLate _ = ⊥

-- What `new_server` ends with, of `before` mapped files.
abbrev pub IsReady : Outside → StartConfig → ℕ → Result StartError Started × ℕ → Type 0
IsReady o cfg before (ok s, live) =
    (0 < s.cap)
    × (s.devices ≢ [])
    × All (IsServed o cfg.listener) s.devices
    × (live ≡ before + held s.devices)
IsReady o cfg before (err e, live) = (live ≡ before) ⊎ IsLate e

All-IsServed :
    (o : Outside) (l : Listener) (ds : List Device) (ids : List Bytes)
    → unknown_drivers ids ≡ []
    → ((a : Bytes) → In a (drivers ds) → In a ids)
    → All (IsOwn l) ds
    → All (IsMapped o.disk) ds
    → All (IsServed o l) ds
All-IsServed o l [] ids u k p q = tt
All-IsServed o l (d ∷ ds) ids u k p q = (
  (p.0, q.0, driver_for-unknown_drivers ids d.driver u (k d.driver (inl refl))),
  All-IsServed o l ds ids u (λ a. λ m. k a (inr m)) p.1 q.1,
)

with_devices-IsReady :
    (o : Outside) (cfg : StartConfig) (before live : ℕ) (ds : List Device)
    → 0 < cfg.max_concurrent_sessions
    → live ≡ before + held ds
    → All (IsOwn cfg.listener) ds
    → All (IsMapped o.disk) ds
    → IsReady o cfg before (with_devices o cfg ds, live)
unfolding with_devices
with_devices-IsReady o cfg before live [] c h p q = inl (omega arith)
with_devices-IsReady o cfg before live (d ∷ ds) c h p q =
    elim (list_cases (unknown_drivers (drivers (d ∷ ds)))) [
      | inr (bad, more, u) ↦ rw (u, with_devices) (inr tt)
      | inl u ↦
          let s = All-IsServed o cfg.listener (d ∷ ds) (drivers (d ∷ ds)) u (λ a. λ m. m) p q in
          elim (Result-cases (resolve_profiles o (d ∷ ds) cfg.device_profiles cfg.profile_seed)) [
            | inr (e, r) ↦ rw (u, r, with_devices) (inr tt)
            | inl (profiles, r) ↦ rw (u, r, with_devices) (c, (λ e. cc), s, h)
          ]
    ]
  where
    list_cases : (xs : List Bytes) → (xs ≡ []) ⊎ ((x : Bytes) × (ys : List Bytes) × (xs ≡ x ∷ ys))
    list_cases [] = inl refl
    list_cases (x ∷ xs) = inr (x, xs, refl)

after_load :
    (o : Outside) (cfg : StartConfig) (before : ℕ)
    → 0 < cfg.max_concurrent_sessions
    → (r : Loaded (List Device) × ℕ) → AllOwn cfg.listener r.0
    → IsBalanced o.disk before r
    → IsReady o cfg before
        (elim r.0 [ err e ↦ err (load_failed e) | ok devs ↦ with_devices o cfg devs ], r.1)
after_load o cfg before c (ok ds, live) a b = with_devices-IsReady o cfg before live ds c b.0 a b.1
after_load o cfg before c (err e, live) a b = inl b

load_devices-IsReady :
    (o : Outside) (cfg : StartConfig) (before : ℕ)
    → 0 < cfg.max_concurrent_sessions
    → IsReady o cfg before (load_devices o cfg before)
unfolding load_devices
load_devices-IsReady o cfg before c =
    let a =
      load_for_listener-AllOwn (serial_for o.sha256) cfg.listener o.disk cfg.manifest before in
    let b =
      load_for_listener-IsBalanced (serial_for o.sha256) o.disk cfg.listener cfg.manifest before in
    after_load o cfg before c
      (load_for_listener (serial_for o.sha256) o.disk cfg.listener cfg.manifest before) a b

-- A server that starts has a place for a session at least, and devices, each with the listener's
-- address, a port in its range, the whole of its file, and the driver that its manifest row names, if
-- it names one; as many files are mapped as the devices hold. A start that fails leaves no file
-- mapped, unless it fails late, on an unknown driver or a bad profile.
pub new_server-IsReady :
    (o : Outside) (cfg : StartConfig) (before : ℕ) → IsReady o cfg before (new_server o cfg before)
unfolding new_server
new_server-IsReady o cfg before = elim (Bool-cases (cfg.max_concurrent_sessions == 0)) [
  | inl t ↦ rw t (inl refl)
  | inr t ↦
      let c : 0 < cfg.max_concurrent_sessions = ground arith in
      rw t (
        if-both (IsReady o cfg before) (cfg.listener.port_count == 0) (inl refl) (
          if-both (IsReady o cfg before) (not (known_mode cfg.ssh_auth_mode)) (inl refl)
            (elim (Option-cases cfg.host_key) [
              | inl e ↦ rw e (inl refl)
              | inr (key, e) ↦ rw e (load_devices-IsReady o cfg before c)
            ])))
]
