-- ===== src/Session.antt =====
-- The per-channel session of internal/sshsrv (session.go, driver.go): what all drivers share.
pub mod Delay
pub mod Malformed
pub mod Emit
pub mod Sent
use rconfig_sim.CmdFiles.{Disk, CmdFiles}
use rconfig_sim.Base.{
  if◌then◌else◌, Bytes, codes, equal, ℕ, ◌+◌, Bool, true, false, Option, some, List, [], ◌∷◌,
}
use rconfig_sim.Channel.{write, Channel}
use rconfig_sim.Fault.{intn, roll, Fault, FaultSet, Rng}
use rconfig_sim.Command.{Command}

-- `profile.Profile`, its durations in nanoseconds.
pub data Profile : Type 0 where
  hang_profile : ℕ → Profile
  latency_profile : ℕ → ℕ → Profile
  refuse_profile disconnect_profile : Profile

abbrev pub is_disconnect : Option Profile → Bool
is_disconnect (some disconnect_profile) = true
is_disconnect _ = false

-- What ends the `select` of a hang.
pub data Wake : Type 0 where
  timer conn_done server_done : Wake

-- The fields of `sessionCtx` that a session only reads.
pub record Config : Type 0 where
  pub hostname : Bytes
  pub serial_number : Bytes
  pub data_bytes : Bytes
  pub username : Bytes
  pub login_user : Bytes
  pub password : Bytes
  pub enable_password : Bytes
  pub disk : Disk
  pub delay_min_ms : ℕ
  pub delay_max_ms : ℕ
  pub faults : Option FaultSet
  pub profile : Option Profile
  pub wake : Wake

-- What a session changes: the channel, the generator, the metrics, the outcome, the connection.
-- The lists have the latest entry first.
pub record World : Type 0 where
  pub channel : Channel
  pub rng : Rng
  pub bytes_sent : ℕ
  pub observed : List Command
  pub faults_injected : List Fault
  pub outcome : Bytes
  pub hung : Bool
  pub hangs : List ℕ
  pub sleeps : List ℕ
  pub tcp_closed : Bool
  pub cmd_files : Option CmdFiles

-- `writeAndCount`: whether the write failed.
unfoldable pub write_and_count : Bytes → World → Bool × World
write_and_count p w =
    let (ch, n, bad) = write p w.channel in
    (bad, record w { channel = ch; bytes_sent = w.bytes_sent + n })

-- Several writes, up to the first that fails.
unfoldable pub write_all : List Bytes → World → Bool × World
write_all [] w = (false, w)
write_all (p ∷ ps) w =
    let rest = write_all ps (write_and_count p w).1 in
    if (write_and_count p w).0 then write_and_count p w else rest

-- `observeCmd`.
unfoldable pub observe_cmd : Command → World → World
observe_cmd cmd w = record w { observed = cmd ∷ w.observed }

-- `FaultsInjected…Inc`.
unfoldable pub count_fault : Fault → World → World
count_fault t w = record w { faults_injected = t ∷ w.faults_injected }

-- `sessionOutcome.Set`, of internal/sshsrv/server.go: the first result other than "ok" stays.
unfoldable pub set_outcome : Bytes → World → World
set_outcome r w = if equal w.outcome (codes "ok") then record w { outcome = r } else w

-- `hardCloseTCP`.
unfoldable pub hard_close_tcp : World → World
hard_close_tcp w = record w { tcp_closed = true }

unfoldable pub draw : ℕ → World → ℕ × World
draw n w = let (k, r) = intn n w.rng in (k, record w { rng = r })

unfoldable pub roll_fault : Config → Fault → World → Bool × World
roll_fault c t w = let (hit, r) = roll c.faults t w.rng in (hit, record w { rng = r })
