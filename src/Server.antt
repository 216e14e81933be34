-- ===== src/Server.antt =====
-- internal/sshsrv/server.go: `handleConn` of all connections together, with the session cap. What
-- the network, the handshake and the sessions do is a sequence of events.
pub mod Auth
pub mod Cap
pub mod Listeners
pub mod Logging
pub mod Requests
pub mod Start
use rconfig_sim.Base.{
  ltb, if◌then◌else◌, get_elem?, Bytes, codes, equal, ℕ, zero, suc, ◌+◌, ◌-◌, Bool, true, false,
  Option, none, some, List, [], ◌∷◌,
}
use rconfig_sim.Session.{Profile, refuse_profile}

-- `sessionOutcome.Set` and `Get`.
unfoldable pub set_result : Bytes → Bytes → Bytes
set_result r result = if equal result (codes "ok") then r else result

unfoldable pub get_result : Bytes → Bytes
get_result result = if equal result [] then codes "ok" else result

-- A connection that holds a place under the cap; it serves sessions once its handshake is done.
pub record Conn : Type 0 where
  pub serving : Bool
  pub result : Bytes

-- How a handshake ends.
pub data Handshake : Type 0 where
  done auth_rejected broken : Handshake

-- `held` is `len(s.sem)` and `cap` its capacity; `sessions_total` has the latest label first.
pub record Server : Type 0 where
  pub cap : ℕ
  pub held : ℕ
  pub active_sessions : ℕ
  pub sessions_total : List Bytes
  pub conns : List Conn

-- What happens next: a client connects to a device with this profile; the handshake of the n-th
-- connection ends; one of its sessions reports a result; it ends.
pub data Event : Type 0 where
  arrive : Option Profile → Event
  shake : ℕ → Handshake → Event
  report : ℕ → Bytes → Event
  leave : ℕ → Event

abbrev pub is_refuse : Option Profile → Bool
is_refuse (some refuse_profile) = true
is_refuse _ = false

abbrev pub remove_at : ℕ → List Conn → List Conn
remove_at n [] = []
remove_at zero (c ∷ cs) = cs
remove_at (suc n) (c ∷ cs) = c ∷ remove_at n cs

abbrev pub replace_at : ℕ → Conn → List Conn → List Conn
replace_at n d [] = []
replace_at zero d (c ∷ cs) = d ∷ cs
replace_at (suc n) d (c ∷ cs) = c ∷ replace_at n d cs

-- The deferred steps of a connection that holds a place: its label is counted, its place is freed.
unfoldable pub release : ℕ → Bytes → Server → Server
unfolding get_result
release n result s = record s {
  held = s.held - 1;
  sessions_total = get_result result ∷ s.sessions_total;
  conns = remove_at n s.conns;
}

-- A connection that is turned away: `outcome.Set("error")`, and the label is counted.
unfoldable pub turn_away : Server → Server
unfolding set_result get_result
turn_away s = record s {
  sessions_total = get_result (set_result (codes "error") (codes "ok")) ∷ s.sessions_total;
}

unfoldable pub on_arrive : Option Profile → Server → Server
unfolding turn_away
on_arrive profile s =
    if is_refuse profile
    then turn_away s
    else if ltb s.held s.cap
    then record s {
      held = s.held + 1;
      conns = record { serving = false; result = codes "ok" } ∷ s.conns;
    }
    else turn_away s

unfoldable pub on_shake : ℕ → Handshake → Conn → Server → Server
unfolding release set_result
on_shake n done c s = record s {
  active_sessions = s.active_sessions + 1;
  conns = replace_at n (record c { serving = true }) s.conns;
}
on_shake n auth_rejected c s = release n (set_result (codes "auth_fail") c.result) s
on_shake n broken c s = release n (set_result (codes "error") c.result) s

unfoldable pub on_leave : ℕ → Conn → Server → Server
unfolding release
on_leave n c s = record (release n c.result s) { active_sessions = s.active_sessions - 1 }

unfoldable pub on_report : ℕ → Bytes → Conn → Server → Server
unfolding set_result
on_report n r c s = record s {
  conns = replace_at n (record c { result = set_result r c.result }) s.conns;
}

-- One event. An event of a connection that is not there, or not in the stage for it, does not happen.
unfoldable pub handle : Event → Server → Server
handle (arrive profile) s = on_arrive profile s
handle (shake n h) s = elim (get_elem? s.conns n) [
  | none ↦ s
  | some c ↦ if c.serving then s else on_shake n h c s
]
handle (report n r) s = elim (get_elem? s.conns n) [
  | none ↦ s
  | some c ↦ if c.serving then on_report n r c s else s
]
handle (leave n) s = elim (get_elem? s.conns n) [
  | none ↦ s
  | some c ↦ if c.serving then on_leave n c s else s
]

unfoldable pub run_events : List Event → Server → Server
run_events [] s = s
run_events (e ∷ es) s = run_events es (handle e s)
