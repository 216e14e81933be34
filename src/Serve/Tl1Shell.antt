-- ===== src/Serve/Tl1Shell.antt =====
-- internal/sshsrv/tl1.go: `tl1Serve`, and `Serve` of the three TL1 drivers that call it.
use rconfig_sim.Base.{length, Bytes, ℕ, Option}
use rconfig_sim.Serve.{serve_loop, after_emit, prompted, Turn}
use rconfig_sim.Session.{Config, World}
use rconfig_sim.Session.Delay.{apply_response_delay}
use rconfig_sim.Session.Emit.{emit}
use rconfig_sim.Tl1.Read.{read_tl1}
use rconfig_sim.Drivers.Node.{new_session, Credentials, Session}
use rconfig_sim.Drivers.Vendor.{dispatch_tl1, vendor_prompt, vendor_marker, Vendor}

-- A command, by the driver's dispatch; `stamp k n` is the clock at the n-th block of the answer to
-- the command that follows k observed ones.
unfoldable pub tl1_command :
    Config → Vendor → (ℕ → ℕ → Bytes) → Session → Bytes → World → Turn Session
tl1_command c v stamp s raw w =
    let u = apply_response_delay c w in
    let credentials : Credentials = record { username = c.username; password = c.password } in
    let (a, t) = dispatch_tl1 v credentials (stamp (length u.observed)) raw s in
    after_emit a.1 t (emit c a.0 a.1 u)

unfoldable pub tl1_turn : Config → Vendor → (ℕ → ℕ → Bytes) → Session → World → Turn Session
unfolding tl1_command
tl1_turn c v stamp s w = prompted (vendor_prompt v) read_tl1 (tl1_command c v stamp s) w

-- `Serve`, with fuel for its loop.
unfoldable pub serve_tl1 : ℕ → Config → Vendor → (ℕ → ℕ → Bytes) → World → Option World
unfolding tl1_turn
serve_tl1 fuel c v stamp w =
    serve_loop (tl1_turn c v stamp) fuel
      (new_session (vendor_marker v) c.hostname c.serial_number c.data_bytes) w
