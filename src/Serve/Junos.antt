-- ===== src/Serve/Junos.antt =====
-- internal/sshsrv/driver_junos.go.
pub mod Effects
use rconfig_sim.Base.{
  ◌==◌, if◌then◌else◌, length, get_or, replicate, Bytes, codes, crlf, equal, ℕ, ◌+◌, ◌-◌, Bool,
  true, false, ◌&&◌, ◌||◌, Option, List, [], ◌∷◌, ◌++◌,
}
use rconfig_sim.Serve.{serve_loop, after_emit, file_or, prompted, Turn}
use rconfig_sim.Session.{Config, World}
use rconfig_sim.Session.Delay.{apply_response_delay}
use rconfig_sim.Session.Emit.{emit}
use rconfig_sim.Command.{Command, unknown, empty, exit, junos_set_cli, junos_show_configuration}
use rconfig_sim.Response.{no_response, text_response, Response}
use rconfig_sim.Line.{read_line}
use rconfig_sim.Text.{to_lower, trim_space, split, join, fields}

-- `Commands`.
abbrev pub junos_commands : List Command
junos_commands = unknown ∷ empty ∷ exit ∷ junos_set_cli ∷ junos_show_configuration ∷ []

-- `isJunosShowConfiguration`: the pipes after the command.
unfoldable pub known_pipes : List Bytes → Bool
known_pipes [] = true
known_pipes (p ∷ ps) =
    (equal (trim_space p) (codes "display set") || equal (trim_space p) (codes "no-more"))
    && known_pipes ps

abbrev show_segments : List Bytes → Bool
show_segments [] = false
show_segments (s ∷ ps) = equal (trim_space s) (codes "show configuration") && known_pipes ps

unfoldable pub is_junos_show_configuration : List Bytes → Bool
unfolding known_pipes
is_junos_show_configuration fs = show_segments (split (join fs (b' ' ∷ [])) b'|')

-- `len(fields) == 4 && …`.
unfoldable pub is_set_cli : List Bytes → Bool
is_set_cli fs =
    length fs == 4
    && equal (get_or fs 0 []) (codes "set")
    && equal (get_or fs 1 []) (codes "cli")
    && (equal (get_or fs 2 []) (codes "screen-length")
        || equal (get_or fs 2 []) (codes "screen-width"))

unfoldable pub is_exit : List Bytes → Bool
is_exit fs =
    length fs == 1
    && (equal (get_or fs 0 []) (codes "exit") || equal (get_or fs 0 []) (codes "quit"))

-- `TrimLeft(line, " \t")`.
unfoldable pub trim_blanks : Bytes → Bytes
trim_blanks [] = []
trim_blanks (c ∷ s) = let rest = trim_blanks s in if c == b' ' || c == 0x09 then rest else c ∷ s

-- The caret under the first character typed.
unfoldable pub junos_unknown : Bytes → ℕ → Bytes
unfolding trim_blanks
junos_unknown typed_line prompt_len =
    let pad = prompt_len + length typed_line - length (trim_blanks typed_line) in
    replicate pad b' ' ++ (b'^' ∷ crlf ++ codes "unknown command.\r\n")

-- `dispatchJunos`.
unfoldable pub dispatch_junos : Bytes → Bytes → ℕ → Command × Response
unfolding is_junos_show_configuration is_set_cli is_exit junos_unknown
dispatch_junos typed_line config prompt_len =
    let fs = fields (to_lower typed_line) in
    if length fs == 0
    then (empty, no_response)
    else if is_set_cli fs
    then (junos_set_cli, no_response)
    else if is_junos_show_configuration fs
    then (junos_show_configuration, record no_response { config_output = config })
    else if is_exit fs
    then (exit, record no_response { close = true })
    else (unknown, text_response (junos_unknown typed_line prompt_len))

-- `junosPrompt`.
unfoldable pub junos_prompt : Config → Bytes
junos_prompt c =
    (if equal c.login_user [] then c.username else c.login_user)
    ++ (b'@' ∷ c.hostname ++ codes "> ")

-- The state of the loop is the prompt.
unfoldable pub junos_command : Config → Bytes → Bytes → World → Turn Bytes
unfolding dispatch_junos
junos_command c prompt typed_line w =
    let v = apply_response_delay c w in
    let (cmd, resp) = dispatch_junos typed_line c.data_bytes (length prompt) in
    after_emit resp prompt (emit c cmd resp v)

unfoldable pub junos_turn : Config → Bytes → World → Turn Bytes
unfolding junos_command
junos_turn c prompt w =
    prompted prompt (read_line true)
      (λ (typed_line : Bytes). file_or c typed_line prompt (junos_command c prompt typed_line)) w

-- `Serve`, with fuel for its loop.
unfoldable pub serve_junos : ℕ → Config → World → Option World
unfolding junos_turn junos_prompt
serve_junos fuel c w = serve_loop (junos_turn c) fuel (junos_prompt c) w
