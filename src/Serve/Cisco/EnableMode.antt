-- ===== src/Serve/Cisco/EnableMode.antt =====
-- The enable mode of the Cisco driver, internal/sshsrv/driver_cisco.go.
use rconfig_sim.Serve.{next_state, prompted, Turn, again, done}
use rconfig_sim.Session.Emit.{emit}
use rconfig_sim.Serve.Ends.{Outcome-cases}
use rconfig_sim.Base.{
  Bytes, codes, equal_iff, ◌≡◌, refl, ◌↔◌, inl, inr, Bool, true, false, not, ◌&&◌, some, arith,
}
use rconfig_sim.Serve.Cisco.{check_enable, ask_enable, cisco_leave, cisco_answer, cisco_command}
use rconfig_sim.Session.{write_and_count, Config, World}
use rconfig_sim.Session.Delay.{apply_response_delay}
use rconfig_sim.Response.{dispatch, Response, State}
use rconfig_sim.Command.{Command, enable}
use rconfig_sim.Channel.{Outcome, line}
use rconfig_sim.Line.{read_line}
use rconfig_sim.Resolve.{resolve}

abbrev is_enable : Command → Bool
is_enable enable = true
is_enable _ = false

dispatch_request :
    (cmd : Command) (st : State)
    → (dispatch cmd st).request_enable_password ≡ (is_enable cmd && not st.enable_mode)
unfolding dispatch
dispatch_request cmd st = ground arith

-- What is read at the password prompt.
abbrev pub password_read : World → Outcome
password_read w = (read_line false (write_and_count (codes "Password: ") w).1.channel).0

ask_enable_mode :
    (c : Config) (cmd : Command) (st t : State) (w v : World)
    → st.enable_mode ≡ false
    → ask_enable c cmd st w ≡ again t v
    → (t.enable_mode ≡ true) ↔ (password_read w ≡ line c.enable_password)
unfolding ask_enable prompted check_enable
ask_enable_mode c cmd st t w v m e =
    let (bad, u) = write_and_count (codes "Password: ") w in
    elim (Outcome-cases (read_line false u.channel).0) [
      | inl (l, q) ↦ ground (arith, equal_iff l c.enable_password)
      | inr (x, q) ↦ ground arith
    ]

cisco_leave_mode :
    (resp : Response) (st t : State) (r : Bool × World) (v : World)
    → st.enable_mode ≡ false
    → cisco_leave resp st r ≡ again t v
    → t.enable_mode ≡ false
unfolding cisco_leave
cisco_leave_mode resp st t r v m e = ground arith

is_enable_iff : (cmd : Command) → (is_enable cmd ≡ true) ↔ (cmd ≡ enable)
is_enable_iff cmd = ground arith

cisco_answer_mode :
    (c : Config) (st t : State) (cmd : Command) (w v : World)
    → st.enable_mode ≡ false
    → cisco_answer c st cmd w ≡ again t v
    → (t.enable_mode ≡ true) ↔ ((cmd ≡ enable) × (password_read w ≡ line c.enable_password))
unfolding cisco_answer
cisco_answer_mode c st t cmd w v m e =
    let resp = dispatch cmd st in
    ground (
      arith,
      dispatch_request cmd st,
      is_enable_iff cmd,
      ask_enable_mode c cmd st t w v m,
      cisco_leave_mode resp st t (emit c cmd resp w) v m,
    )

cisco_command_mode :
    (c : Config) (st t : State) (typed_line : Bytes) (w : World) (x : Turn State)
    → st.enable_mode ≡ false
    → cisco_command c st typed_line w ≡ x
    → next_state x ≡ some t
    → (t.enable_mode ≡ true) ↔ (
        ((resolve typed_line).0 ≡ enable)
        × (password_read (apply_response_delay c w) ≡ line c.enable_password))
unfolding cisco_command
cisco_command_mode c st t typed_line w (again u v) m e n =
    let k = cisco_answer_mode c st u (resolve typed_line).0 (apply_response_delay c w) v m e in
    let p : u ≡ t = ground arith in rw p at k
cisco_command_mode c st t typed_line w (done v) m e n = absurd (ground arith)

-- A command line typed in user mode, after which the session goes on, leaves it in enable mode exactly
-- if it resolves to `enable` and the line then read at the password prompt is the enable password.
pub cisco_command-enable :
    (c : Config) (st t : State) (typed_line : Bytes) (w : World)
    → st.enable_mode ≡ false
    → next_state (cisco_command c st typed_line w) ≡ some t
    → (t.enable_mode ≡ true) ↔ (
        ((resolve typed_line).0 ≡ enable)
        × (password_read (apply_response_delay c w) ≡ line c.enable_password))
cisco_command-enable c st t typed_line w m n =
    cisco_command_mode c st t typed_line w (cisco_command c st typed_line w) m refl n
