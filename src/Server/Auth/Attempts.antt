-- ===== src/Server/Auth/Attempts.antt =====
-- The password callback.
use rconfig_sim.Base.{if◌then◌else◌, Bytes, codes, ◌≡◌, ◌↔◌, ◌⊎◌, Bool, true, false, [], ◌∷◌}
use rconfig_sim.Fault.{auth_fail}
use rconfig_sim.Server.Auth.{AuthState}

-- What an attempt leaves, `hit` telling whether the fault fires.
abbrev pub Attempted : Bytes → Bytes → Bool → AuthState → Bool × AuthState → Type 0
Attempted password pass hit s (accepted, t) =
    ((accepted ≡ true) ↔ ((hit ≡ false) × ((password ≡ []) ⊎ (pass ≡ password))))
    × (t.auth_attempts ≡ (if accepted then codes "ok" else codes "fail") ∷ s.auth_attempts)
    × (t.faults_injected ≡ (if hit then auth_fail ∷ s.faults_injected else s.faults_injected))
    × (t.rng ≡ s.rng)
