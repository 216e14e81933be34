-- ===== src/Server/Listeners.antt =====
-- internal/sshsrv/server.go: the listeners that `Start` opens and `closeListeners` closes. What the
-- system does is a function: whether an address can be listened on.
pub mod Closed
use rconfig_sim.Base.{◌==◌, if◌then◌else◌, ℕ, Bool, true, false, Option, none, some, List, [], ◌∷◌}

-- What is open: the ports of the devices, and the metrics address.
pub record Sockets : Type 0 where
  pub open_ports : List ℕ
  pub listeners : List ℕ
  pub metrics_open : Bool

unfoldable pub remove_port : ℕ → List ℕ → List ℕ
remove_port p [] = []
remove_port p (q ∷ qs) = let rest = remove_port p qs in if p == q then qs else q ∷ rest

unfoldable pub close_ports : List ℕ → List ℕ → List ℕ
close_ports [] open_ports = open_ports
close_ports (p ∷ ps) open_ports = close_ports ps (remove_port p open_ports)

-- `closeListeners`.
unfoldable pub close_listeners : Sockets → Sockets
unfolding close_ports remove_port
close_listeners s = record s { open_ports = close_ports s.listeners s.open_ports }

-- The loop of `Start` over the devices' ports, in the order of the map; `false` is an error.
unfoldable pub bind_ports : (ℕ → Bool) → List ℕ → Sockets → Bool × Sockets
unfolding close_listeners
bind_ports can_listen [] s = (true, s)
bind_ports can_listen (p ∷ ps) s =
    let bound =
      bind_ports can_listen ps
        (record s { open_ports = p ∷ s.open_ports; listeners = p ∷ s.listeners }) in
    if can_listen p then bound else (false, close_listeners s)

-- `Start`: `metrics` is whether the metrics address, if there is one, can be listened on.
unfoldable pub start : (ℕ → Bool) → Option Bool → List ℕ → Sockets → Bool × Sockets
unfolding bind_ports
start can_listen metrics ports s =
    let (bound, t) = bind_ports can_listen ports s in
    let served : Bool × Sockets = elim metrics [
      | none ↦ (true, t)
      | some true ↦ (true, record t { metrics_open = true })
      | some false ↦ (false, close_listeners t)
    ] in
    if bound then served else (false, t)

abbrev pub no_sockets : Sockets
no_sockets = record { open_ports = []; listeners = []; metrics_open = false }
