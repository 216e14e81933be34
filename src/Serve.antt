-- ===== src/Serve.antt =====
-- The interactive loops of internal/sshsrv: `Serve` of driver_cisco.go and driver_junos.go,
-- `tl1Serve` of tl1.go, and `serveCommandFile` of cmdfiles.go. A loop is the function of one turn.
pub mod Junos
pub mod Cisco
pub mod Tl1Shell
pub mod Ends
pub mod Total
use rconfig_sim.Base.{
  if◌then◌else◌, Bytes, codes, ℕ, zero, suc, Bool, true, false, Option, none, some,
}
use rconfig_sim.Session.{write_and_count, set_outcome, Config, World}
use rconfig_sim.Session.Delay.{apply_response_delay}
use rconfig_sim.Session.Emit.{emit}
use rconfig_sim.Command.{file}
use rconfig_sim.Response.{text_response, Response}
use rconfig_sim.Channel.{Channel, Outcome, line, failed}
use rconfig_sim.CmdFiles.{lookup}

-- What a turn comes to: the next turn, in a state of the driver, or a return.
pub data Turn (S : Type 0) : Type 0 where
  again : S → World → Turn S
  done : World → Turn S

-- The state of the next turn, if there is one.
abbrev pub next_state : {S : Type 0} → Turn S → Option S
next_state (again s w) = some s
next_state (done w) = none

-- The `for` loop, with fuel.
unfoldable pub serve_loop : {S : Type 0} → (S → World → Turn S) → ℕ → S → World → Option World
serve_loop turn zero s w = none
serve_loop turn (suc fuel) s w = elim (turn s w) [
  | again t v ↦ serve_loop turn fuel t v
  | done v ↦ some v
]

-- A read of a line that fails ends the session as a disconnect.
unfoldable pub disconnected : Channel → World → World
unfolding set_outcome
disconnected ch w = set_outcome (codes "disconnect") (record w { channel = ch })

-- What follows the emission.
unfoldable pub after_emit : {S : Type 0} → Response → S → Bool × World → Turn S
after_emit resp s (closed, w) = if closed then done w else if resp.close then done w else again s w

-- `serveCommandFile`: whether a file matched, and whether the session must end.
unfoldable pub serve_command_file : Config → Bytes → World → Bool × Bool × World
serve_command_file c typed_line w =
    let (found, files) = lookup c.disk c.hostname typed_line w.cmd_files in
    let v = record w { cmd_files = files } in
    elim found [
      | none ↦ (false, false, v)
      | some out ↦
          let (closed, u) = emit c file (text_response out) (apply_response_delay c v) in
          (true, closed, u)
    ]

-- A line is answered by its file if there is one, and otherwise by the driver.
unfoldable pub file_or : {S : Type 0} → Config → Bytes → S → (World → Turn S) → World → Turn S
file_or c typed_line s command w =
    let (handled, closed, v) = serve_command_file c typed_line w in
    if handled then (if closed then done v else again s v) else command v

-- A prompt, a line, and what is done with the line.
unfoldable pub prompted :
    {S : Type 0} → Bytes → (Channel → Outcome × Channel) → (Bytes → World → Turn S) → World → Turn S
prompted prompt reader body w =
    let (bad, v) = write_and_count prompt w in
    let (r, ch) = reader v.channel in
    if bad then done v else elim r [
      | failed e ↦ done (disconnected ch v)
      | line l ↦ body l (record v { channel = ch })
    ]
