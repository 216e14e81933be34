-- ===== src/Serve/Total.antt =====
-- The turns of each driver, and their loops.
use rconfig_sim.Session.{write_and_count, observe_cmd, Config, World}
use rconfig_sim.Session.Sent.{write_and_count-Counted}
use rconfig_sim.Serve.Ends.{
  Consumes, read_loop_consumes, Within, Shorter, emit_input, after_emit-Within, serve_loop-total,
  apply_response_delay_input, file_or-Within, prompted-Shorter,
}
use rconfig_sim.Serve.Cisco.{
  cisco_prompt, check_enable, ask_enable, cisco_leave, cisco_answer, cisco_command, cisco_turn,
}
use rconfig_sim.Serve.Junos.{dispatch_junos, junos_command, junos_turn}
use rconfig_sim.Serve.Tl1Shell.{tl1_command, tl1_turn}
use rconfig_sim.Resolve.{resolve}
use rconfig_sim.Response.{dispatch, Response, State}
use rconfig_sim.Drivers.Node.{Credentials, Session}
use rconfig_sim.Drivers.Vendor.{dispatch_tl1, vendor_prompt, Vendor}
use rconfig_sim.Base.{
  Bool-cases, length, Bytes, codes, equal, ℕ, ◌≤◌, ◌<◌, ◌≡◌, ap, ◌∙◌, inl, inr, Bool, true, false,
  some, List, [], arith,
}
use rconfig_sim.Serve.{serve_loop, file_or, Turn, again, done}
use rconfig_sim.Session.Delay.{apply_response_delay}
use rconfig_sim.Session.Emit.{emit}
use rconfig_sim.Command.{Command}
use rconfig_sim.Channel.{Read}
use rconfig_sim.Line.{key, read_line}
use rconfig_sim.Tl1.Read.{tl1_key, read_tl1}

read_line-Consumes : (shown : Bool) → Consumes (read_line shown)
unfolding read_line
read_line-Consumes shown ch l e = read_loop_consumes (key shown) ch.input [] ch l e

read_tl1-Consumes : Consumes read_tl1
unfolding read_tl1
read_tl1-Consumes ch l e =
    read_loop_consumes tl1_key ch.input (record { buf = []; in_quote = false }) ch l e

-- The emission after the delay leaves the input.
delayed_emit_input :
    (c : Config) (cmd : Command) (resp : Response) (w : World)
    → (emit c cmd resp (apply_response_delay c w)).1.channel.input ≡ w.channel.input
delayed_emit_input c cmd resp w =
    emit_input c cmd resp (apply_response_delay c w) ∙ apply_response_delay_input c w

input_le :
    (w v : World)
    → w.channel.input ≡ v.channel.input
    → length w.channel.input ≤ length v.channel.input
input_le w v e = omega (arith, ap (λ (x : List Read). length x) e)

Shorter-Within : {S : Type 0} (n : ℕ) (t : Turn S) → Shorter n t → Within n t
Shorter-Within n (again s v) h = omega arith
Shorter-Within n (done v) h = tt

junos_command-Within :
    (c : Config) (prompt l : Bytes) (w : World)
    → Within (length w.channel.input) (junos_command c prompt l w)
unfolding junos_command
junos_command-Within c prompt l w =
    let (cmd, resp) = dispatch_junos l c.data_bytes (length prompt) in
    let r = emit c cmd resp (apply_response_delay c w) in
    after_emit-Within (length w.channel.input) resp prompt r
      (input_le r.1 w (delayed_emit_input c cmd resp w))

junos_turn-Shorter :
    (c : Config) (s : Bytes) (w : World) → Shorter (length w.channel.input) (junos_turn c s w)
unfolding junos_turn
junos_turn-Shorter c prompt w =
    prompted-Shorter prompt (read_line true)
      (λ (l : Bytes). file_or c l prompt (junos_command c prompt l)) w (read_line-Consumes true)
      (λ l v.
        file_or-Within c l prompt (junos_command c prompt l) v (junos_command-Within c prompt l))

tl1_turn-Shorter :
    (c : Config) (v : Vendor) (stamp : ℕ → ℕ → Bytes) (s : Session) (w : World)
    → Shorter (length w.channel.input) (tl1_turn c v stamp s w)
unfolding tl1_turn tl1_command
tl1_turn-Shorter c v stamp s w =
    prompted-Shorter (vendor_prompt v) read_tl1 (tl1_command c v stamp s) w read_tl1-Consumes
      (λ raw w.
        let u = apply_response_delay c w in
        let credentials : Credentials = record { username = c.username; password = c.password } in
        let (a, t) = dispatch_tl1 v credentials (stamp (length u.observed)) raw s in
        let r = emit c a.0 a.1 u in
        after_emit-Within (length w.channel.input) a.1 t r
          (input_le r.1 w (delayed_emit_input c a.0 a.1 w)))

cisco_leave-Within :
    (n : ℕ) (resp : Response) (s : State) (r : Bool × World)
    → length r.1.channel.input ≤ n
    → Within n (cisco_leave resp s r)
unfolding cisco_leave
cisco_leave-Within n resp s (closed, w) h = elim (Bool-cases closed) [
  | inl t ↦ rw (t, cisco_leave) tt
  | inr t ↦ elim (Bool-cases resp.exit_enable) [
    | inl x ↦ rw (t, x, cisco_leave) h
    | inr x ↦ elim (Bool-cases resp.close) [
      | inl u ↦ rw (t, x, u, cisco_leave) tt
      | inr u ↦ rw (t, x, u, cisco_leave) h
    ]
  ]
]

check_enable-Within :
    (c : Config) (cmd : Command) (s : State) (pw : Bytes) (w : World)
    → Within (length w.channel.input) (check_enable c cmd s pw w)
unfolding check_enable observe_cmd
check_enable-Within c cmd s pw w =
    let u = (write_and_count (codes "% Access denied\r\n") w).1 in
    let i = (write_and_count-Counted (codes "% Access denied\r\n") w).1 in
    elim (Bool-cases (equal pw c.enable_password)) [
      | inl t ↦ rw (t, check_enable) (omega arith)
      | inr t ↦ rw (t, check_enable) (input_le u w i)
    ]

Within-mono : {S : Type 0} (m n : ℕ) (t : Turn S) → m ≤ n → Within m t → Within n t
Within-mono m n (again s v) h k = omega arith
Within-mono m n (done v) h k = tt

ask_enable-Within :
    (c : Config) (cmd : Command) (s : State) (w : World)
    → Within (length w.channel.input) (ask_enable c cmd s w)
unfolding ask_enable
ask_enable-Within c cmd s w = Shorter-Within (length w.channel.input) (ask_enable c cmd s w) (
    prompted-Shorter (codes "Password: ") (read_line false) (check_enable c cmd s) w
      (read_line-Consumes false) (check_enable-Within c cmd s))

cisco_command-Within :
    (c : Config) (s : State) (l : Bytes) (w : World)
    → Within (length w.channel.input) (cisco_command c s l w)
unfolding cisco_command cisco_answer
cisco_command-Within c s l w =
    let cmd = (resolve l).0 in
    let resp = dispatch cmd s in
    let v = apply_response_delay c w in
    let r = emit c cmd resp v in
    let i = apply_response_delay_input c w in
    elim (Bool-cases resp.request_enable_password) [
      | inl t ↦
          simp (t, cisco_command)
            (Within-mono (length v.channel.input) (length w.channel.input) (ask_enable c cmd s v)
              (omega (arith, ap (λ (x : List Read). length x) i)) (ask_enable-Within c cmd s v))
      | inr t ↦
          simp (t, cisco_command)
            (cisco_leave-Within (length w.channel.input) resp s r
              (input_le r.1 w (delayed_emit_input c cmd resp w)))
    ]

cisco_turn-Shorter :
    (c : Config) (s : State) (w : World) → Shorter (length w.channel.input) (cisco_turn c s w)
unfolding cisco_turn
cisco_turn-Shorter c s w =
    prompted-Shorter (cisco_prompt s) (read_line true)
      (λ (l : Bytes). file_or c l s (cisco_command c s l)) w (read_line-Consumes true)
      (λ l v. file_or-Within c l s (cisco_command c s l) v (cisco_command-Within c s l))

-- The loop of every driver returns, from every state, with more fuel than the client's reads:
-- every turn that goes on has consumed input.
pub serve-total :
    (c : Config) (v : Vendor) (stamp : ℕ → ℕ → Bytes) (st : State) (prompt : Bytes) (s : Session)
    (w : World) (fuel : ℕ)
    → length w.channel.input < fuel
    → ((u : World) × (serve_loop (cisco_turn c) fuel st w ≡ some u))
      × ((u : World) × (serve_loop (junos_turn c) fuel prompt w ≡ some u))
      × ((u : World) × (serve_loop (tl1_turn c v stamp) fuel s w ≡ some u))
serve-total c v stamp st prompt s w fuel h = (
  serve_loop-total (cisco_turn c) (cisco_turn-Shorter c) fuel st w h,
  serve_loop-total (junos_turn c) (junos_turn-Shorter c) fuel prompt w h,
  serve_loop-total (tl1_turn c v stamp) (tl1_turn-Shorter c v stamp) fuel s w h,
)
