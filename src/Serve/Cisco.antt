-- ===== src/Serve/Cisco.antt =====
-- internal/sshsrv/driver_cisco.go.
pub mod EnableMode
use rconfig_sim.Base.{
  if◌then◌else◌, Bytes, codes, crlf, equal, ℕ, Bool, true, false, Option, List, [], ◌∷◌, ◌++◌,
}
use rconfig_sim.Serve.{serve_loop, file_or, prompted, Turn, again, done}
use rconfig_sim.Session.{write_and_count, observe_cmd, Config, World}
use rconfig_sim.Session.Delay.{apply_response_delay}
use rconfig_sim.Session.Emit.{emit}
use rconfig_sim.Command.{
  Command, unknown, empty, ambiguous, terminal_length, terminal_pager, enable, show_version,
  show_running_config, show_startup_config, show_inventory, exit,
}
use rconfig_sim.Response.{dispatch, Response, State}
use rconfig_sim.Line.{read_line}
use rconfig_sim.Resolve.{resolve}

-- `Commands`.
abbrev pub cisco_commands : List Command
cisco_commands =
    unknown ∷ empty ∷ ambiguous ∷ terminal_length ∷ terminal_pager ∷ enable ∷ show_version
    ∷ show_running_config ∷ show_startup_config ∷ show_inventory ∷ exit ∷ []

abbrev pub cisco_prompt : State → Bytes
cisco_prompt st = st.hostname ++ ((if st.enable_mode then b'#' else b'>') ∷ [])

-- The comparison with the enable password, after which the command is observed.
unfoldable pub check_enable : Config → Command → State → Bytes → World → Turn State
unfolding observe_cmd
check_enable c cmd st pw w =
    if equal pw c.enable_password
    then again (record st { enable_mode = true }) (observe_cmd cmd w)
    else again st (observe_cmd cmd (write_and_count (codes "% Access denied\r\n") w).1)

-- The password sub-flow of `enable`.
unfoldable pub ask_enable : Config → Command → State → World → Turn State
unfolding check_enable
ask_enable c cmd st w = prompted (codes "Password: ") (read_line false) (check_enable c cmd st) w

-- The end of a turn: leaving the enable mode, or the session.
unfoldable pub cisco_leave : Response → State → Bool × World → Turn State
cisco_leave resp st (closed, w) =
    if closed
    then done w
    else if resp.exit_enable
    then again (record st { enable_mode = false }) w
    else if resp.close
    then done w
    else again st w

-- A resolved command, after the delay.
unfoldable pub cisco_answer : Config → State → Command → World → Turn State
cisco_answer c st cmd w =
    let resp = dispatch cmd st in
    if resp.request_enable_password
    then ask_enable c cmd st w
    else cisco_leave resp st (emit c cmd resp w)

-- A command that no file answers.
unfoldable pub cisco_command : Config → State → Bytes → World → Turn State
cisco_command c st typed_line w =
    cisco_answer c st (resolve typed_line).0 (apply_response_delay c w)

unfoldable pub cisco_turn : Config → State → World → Turn State
unfolding cisco_command
cisco_turn c st w =
    prompted (cisco_prompt st) (read_line true)
      (λ (typed_line : Bytes). file_or c typed_line st (cisco_command c st typed_line)) w

abbrev pub cisco_state : Config → State
cisco_state c = record {
  hostname = c.hostname;
  serial = c.serial_number;
  enable_mode = false;
  config_bytes = c.data_bytes;
}

-- The greeting; its writes are not checked.
unfoldable pub cisco_greeting : Config → World → World
cisco_greeting c w =
    let v = (write_and_count crlf w).1 in
    let u = (write_and_count (c.hostname ++ codes " line 0 is now available\r\n") v).1 in
    (write_and_count crlf u).1

-- `Serve`, with fuel for its loop.
unfoldable pub serve_cisco : ℕ → Config → World → Option World
unfolding cisco_turn cisco_greeting
serve_cisco fuel c w = serve_loop (cisco_turn c) fuel (cisco_state c) (cisco_greeting c w)
