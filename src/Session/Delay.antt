-- ===== src/Session/Delay.antt =====
-- internal/sshsrv/driver.go: `applyResponseDelay` and `hang`.
pub mod Bounds
use rconfig_sim.Base.{ltb, if◌then◌else◌, ℕ, ◌+◌, ◌-◌, ◌*◌, ◌/◌, true, not, Option, some, ◌∷◌}
use Prim.Native.Nat.{min, max}
use rconfig_sim.Fault.{slow_response}
use rconfig_sim.Session.{
  count_fault, hard_close_tcp, draw, roll_fault, Profile, hang_profile, latency_profile, timer,
  conn_done, server_done, Config, World,
}

-- The channel of a connection that is gone: it takes nothing more.
abbrev pub shut : World → World
shut w = record w { channel = record w.channel { room = some 0 } }

-- `hang`: it ends by the timer, by the client's leaving, or by the server's shutdown, which closes
-- the connection.
unfoldable pub hang : Config → ℕ → World → World
unfolding hard_close_tcp
hang c d w =
    let waited = record w { hung = true; hangs = d ∷ w.hangs } in
    elim c.wake [
      | timer ↦ waited
      | conn_done ↦ shut waited
      | server_done ↦ hard_close_tcp (shut waited)
    ]

-- The hang of the first command.
unfoldable pub hang_once : Config → Option Profile → World → World
unfolding hang
hang_once c (some (hang_profile d)) w = if not w.hung then hang c d w else w
hang_once c _ w = w

-- The bounds of the delay, in milliseconds: `Milliseconds()` of a profile's durations.
unfoldable pub delay_bounds : Config → Option Profile → ℕ × ℕ
delay_bounds c (some (latency_profile lo hi)) = (lo / 1000000, hi / 1000000)
delay_bounds c _ = (c.delay_min_ms, c.delay_max_ms)

unfoldable pub base_delay : ℕ × ℕ → World → ℕ × World
base_delay (lo, hi) w =
    let (k, v) = draw (hi - lo + 1) w in if ltb lo hi then (lo + k, v) else (lo, w)

-- The slow_response fault.
unfoldable pub slow_down : ℕ → World → ℕ × World
unfolding count_fault
slow_down delay w =
    let (k, v) = draw 41 w in (min (max delay 10 * (10 + k)) 60000, count_fault slow_response v)

unfoldable pub sleep : ℕ × World → World
sleep (ms, w) = if ltb 0 ms then record w { sleeps = ms ∷ w.sleeps } else w

-- `applyResponseDelay`.
unfoldable pub apply_response_delay : Config → World → World
unfolding hang_once base_delay slow_down sleep
apply_response_delay c w =
    let (delay, v) = base_delay (delay_bounds c c.profile) (hang_once c c.profile w) in
    let (slow, u) = roll_fault c slow_response v in
    sleep (if slow then slow_down delay u else (delay, u))
