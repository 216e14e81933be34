-- ===== src/Server/Auth.antt =====
-- internal/sshsrv/server.go: the password callback, and the classification of a failed handshake.
pub mod Attempts
pub mod Messages
use rconfig_sim.Base.{
  if◌then◌else◌, Bytes, codes, equal, ℕ, suc, Bool, true, false, ◌||◌, Option, none, some, List, [],
  ◌∷◌,
}
use rconfig_sim.Fault.{roll, Fault, auth_fail, FaultSet, Rng}
use rconfig_sim.Text.{has_prefix}

-- What an attempt changes: the generator, and the metrics, with the latest entry first.
pub record AuthState : Type 0 where
  pub rng : Rng
  pub faults_injected : List Fault
  pub auth_attempts : List Bytes

-- The verdict of the callback after the roll of the fault: whether the password will do.
unfoldable pub verdict : Bytes → Bytes → Bool → AuthState → Bool × AuthState
verdict password pass hit s =
    if hit
    then (
      false,
      record s {
        faults_injected = auth_fail ∷ s.faults_injected;
        auth_attempts = codes "fail" ∷ s.auth_attempts;
      },
    )
    else if equal password [] || equal pass password
    then (true, record s { auth_attempts = codes "ok" ∷ s.auth_attempts })
    else (false, record s { auth_attempts = codes "fail" ∷ s.auth_attempts })

-- `serverConfig.PasswordCallback`.
unfoldable pub password_callback : Option FaultSet → Bytes → Bytes → AuthState → Bool × AuthState
unfolding verdict
password_callback faults password pass s =
    let (hit, r) = roll faults auth_fail s.rng in verdict password pass hit (record s { rng = r })

-- `indexOf`.
unfoldable pub index_of : Bytes → Bytes → Option ℕ
index_of [] sub = if equal sub [] then some 0 else none
index_of (c ∷ s) sub =
    let later : Option ℕ = elim (index_of s sub) [ none ↦ none | some i ↦ some (suc i) ] in
    if has_prefix (c ∷ s) sub then some 0 else later

-- `containsAny`.
unfoldable pub contains_any : Bytes → List Bytes → Bool
unfolding index_of
contains_any s [] = false
contains_any s (sub ∷ subs) = elim (index_of s sub) [ some i ↦ true | none ↦ contains_any s subs ]

abbrev pub auth_messages : List Bytes
auth_messages =
    codes "no auth passed" ∷ codes "unable to authenticate" ∷ codes "permission denied" ∷ []

-- `isAuthFailure`, of the error's message; `none` is nil.
unfoldable pub is_auth_failure : Option Bytes → Bool
unfolding contains_any
is_auth_failure none = false
is_auth_failure (some msg) = contains_any msg auth_messages
