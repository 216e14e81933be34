-- ===== src/Serve/Ends.antt =====
-- What a turn of a loop leaves of the input, and a loop whose turns all leave less.
use rconfig_sim.Floats.{less}
use rconfig_sim.Channel.{
  echo, read_loop, Read, byte, nothing, Channel, Failure, eof, Outcome, line, failed, Action, next,
  return,
}
use rconfig_sim.Session.{write_and_count, count_fault, draw, roll_fault, Profile, Config, World}
use rconfig_sim.Session.Sent.{write_and_count-Counted, emit-Counted}
use rconfig_sim.Session.Delay.{
  hang, hang_once, delay_bounds, base_delay, slow_down, sleep, apply_response_delay,
}
use rconfig_sim.Response.{text_response, Response}
use rconfig_sim.Command.{Command, file}
use rconfig_sim.Fault.{slow_response}
use rconfig_sim.CmdFiles.{lookup}
use rconfig_sim.Channel.Loop.{read_loop_next, read_loop_return, read_loop_skip}
use rconfig_sim.Base.{
  Bool-cases, Option-cases, length, Bytes, ℕ, zero, suc, ◌≤◌, ◌<◌, ◌≡◌, refl, ap, ◌∙◌, ◌⊎◌, inl,
  inr, Bool, Option, some, List, [], ◌∷◌, arith,
}
use rconfig_sim.Serve.{
  serve_loop, after_emit, serve_command_file, file_or, prompted, Turn, again, done,
}
use rconfig_sim.Session.Emit.{emit}

-- The reader takes at least a byte for a line.
abbrev pub Consumes : (Channel → Outcome × Channel) → Type 0
Consumes reader =
    (ch : Channel) (l : Bytes)
    → (reader ch).0 ≡ line l
    → length (reader ch).1.input < length ch.input

module _ {S : Type 0} (step : S → ℕ → Action S) where
  consumes_byte :
      (c : ℕ) (rest : List Read) (s : S) (ch : Channel) (l : Bytes) (a : Action S)
      → ((s : S) (ch : Channel) (l : Bytes)
          → (read_loop step rest s ch).0 ≡ line l
          → length (read_loop step rest s ch).1.input < length rest)
      → step s c ≡ a
      → (read_loop step (byte c ∷ rest) s ch).0 ≡ line l
      → length (read_loop step (byte c ∷ rest) s ch).1.input < suc (length rest)
  consumes_byte c rest s ch l (next t out) later k e =
      let q = read_loop_next step c rest s ch t out k in
      let h = later t (echo out ch) l (rw q at e) in rw q (omega arith)
  consumes_byte c rest s ch l (return r out) later k e =
      rw (read_loop_return step c rest s ch r out k) (omega arith)

  pub read_loop_consumes :
      (input : List Read) (s : S) (ch : Channel) (l : Bytes)
      → (read_loop step input s ch).0 ≡ line l
      → length (read_loop step input s ch).1.input < length input
  read_loop_consumes [] s ch l e =
      let t : failed eof ≡ line l = unfold read_loop in e in absurd (ground arith)
  read_loop_consumes (nothing ∷ rest) s ch l e =
      let q = read_loop_skip step rest s ch in
      let h = read_loop_consumes rest s ch l (rw q at e) in rw q (omega arith)
  read_loop_consumes (byte c ∷ rest) s ch l e =
      consumes_byte c rest s ch l (step s c) (read_loop_consumes rest) refl e

-- If the session goes on, at most n reads are left.
abbrev pub Within : {S : Type 0} → ℕ → Turn S → Type 0
Within n (again s v) = length v.channel.input ≤ n
Within n (done v) = Unit

-- If the session goes on, less than n reads are left.
abbrev pub Shorter : {S : Type 0} → ℕ → Turn S → Type 0
Shorter n (again s v) = length v.channel.input < n
Shorter n (done v) = Unit

Within-Shorter : {S : Type 0} (m n : ℕ) (t : Turn S) → m < n → Within m t → Shorter n t
Within-Shorter m n (again s v) h k = omega arith
Within-Shorter m n (done v) h k = tt

pub emit_input :
    (c : Config) (cmd : Command) (resp : Response) (w : World)
    → (emit c cmd resp w).1.channel.input ≡ w.channel.input
emit_input c cmd resp w = (emit-Counted c cmd resp w).1

pub after_emit-Within :
    {S : Type 0} (n : ℕ) (resp : Response) (s : S) (r : Bool × World)
    → length r.1.channel.input ≤ n
    → Within n (after_emit resp s r)
unfolding after_emit
after_emit-Within n resp s (closed, w) h = elim (Bool-cases closed) [
  | inl t ↦ rw (t, after_emit) tt
  | inr t ↦ elim (Bool-cases resp.close) [
    | inl u ↦ rw (t, u, after_emit) tt
    | inr u ↦ rw (t, u, after_emit) h
  ]
]

serve_step :
    {S : Type 0} (turn : S → World → Turn S) (fuel n : ℕ) (s : S) (w : World) (t : Turn S)
    → turn s w ≡ t
    → Shorter n t
    → ((s : S) (v : World)
        → length v.channel.input < n
        → (u : World) × (serve_loop turn fuel s v ≡ some u))
    → (u : World) × (serve_loop turn (suc fuel) s w ≡ some u)
unfolding serve_loop
serve_step turn fuel n s w (again r v) e h later =
    let (u, q) = later r v h in (u, rw (e, serve_loop) q)
serve_step turn fuel n s w (done v) e h later = (v, rw (e, serve_loop) refl)

pub serve_loop-total :
    {S : Type 0} (turn : S → World → Turn S)
    → ((s : S) (w : World) → Shorter (length w.channel.input) (turn s w))
    → (fuel : ℕ) (s : S) (w : World) → length w.channel.input < fuel
    → (v : World) × (serve_loop turn fuel s w ≡ some v)
serve_loop-total turn less zero s w h = absurd (omega arith)
serve_loop-total turn less (suc fuel) s w h =
    serve_step turn fuel (length w.channel.input) s w (turn s w) refl (less s w)
      (λ r v k. serve_loop-total turn less fuel r v (omega arith))

sleep_input : (d : ℕ × World) → (sleep d).channel.input ≡ d.1.channel.input
unfolding sleep
sleep_input d = ground arith

base_delay_input : (b : ℕ × ℕ) (w : World) → (base_delay b w).1.channel.input ≡ w.channel.input
unfolding base_delay draw
base_delay_input b w = ground arith

hang_once_input :
    (c : Config) (p : Option Profile) (w : World)
    → (hang_once c p w).channel.input ≡ w.channel.input
unfolding hang_once hang
hang_once_input c p w = ground arith

slow_down_input : (d : ℕ) (w : World) → (slow_down d w).1.channel.input ≡ w.channel.input
unfolding slow_down draw count_fault
slow_down_input d w = refl

pub apply_response_delay_input :
    (c : Config) (w : World) → (apply_response_delay c w).channel.input ≡ w.channel.input
unfolding apply_response_delay roll_fault
apply_response_delay_input c w =
    let v = hang_once c c.profile w in
    let d = base_delay (delay_bounds c c.profile) v in
    let r = roll_fault c slow_response d.1 in
    let a = base_delay_input (delay_bounds c c.profile) v ∙ hang_once_input c c.profile w in
    elim (Bool-cases r.0) [
      | inl t ↦ rw t (sleep_input (slow_down d.0 r.1) ∙ (slow_down_input d.0 r.1 ∙ a))
      | inr t ↦ rw t (sleep_input (d.0, r.1) ∙ a)
    ]

serve_command_file_input :
    (c : Config) (typed_line : Bytes) (w : World)
    → (serve_command_file c typed_line w).2.channel.input ≡ w.channel.input
unfolding serve_command_file
serve_command_file_input c typed_line w =
    let (found, files) = lookup c.disk c.hostname typed_line w.cmd_files in
    let v : World = record w { cmd_files = files } in
    elim (Option-cases found) [
      | inl e ↦ rw (e, serve_command_file) refl
      | inr (out, e) ↦
          rw (e, serve_command_file)
            (emit_input c file (text_response out) (apply_response_delay c v)
              ∙ apply_response_delay_input c v)
    ]

pub file_or-Within :
    {S : Type 0} (c : Config) (typed_line : Bytes) (s : S) (command : World → Turn S) (w : World)
    → ((v : World) → Within (length v.channel.input) (command v))
    → Within (length w.channel.input) (file_or c typed_line s command w)
unfolding file_or
file_or-Within c typed_line s command w later =
    let (handled, closed, v) = serve_command_file c typed_line w in
    let i = serve_command_file_input c typed_line w in
    elim (Bool-cases handled) [
      | inl t ↦ elim (Bool-cases closed) [
        | inl u ↦ rw (t, u, file_or) tt
        | inr u ↦ rw (t, u, file_or) (omega (arith, ap (λ (x : List Read). length x) i))
      ]
      | inr t ↦ rw (t, file_or) (let k = later v in rw i at k)
    ]

pub Outcome-cases : (r : Outcome) → ((l : Bytes) × (r ≡ line l)) ⊎ ((e : Failure) × (r ≡ failed e))
Outcome-cases (line l) = inl (l, refl)
Outcome-cases (failed e) = inr (e, refl)

pub prompted-Shorter :
    {S : Type 0} (prompt : Bytes) (reader : Channel → Outcome × Channel)
    (body : Bytes → World → Turn S) (w : World)
    → Consumes reader
    → ((l : Bytes) (v : World) → Within (length v.channel.input) (body l v))
    → Shorter (length w.channel.input) (prompted prompt reader body w)
unfolding prompted
prompted-Shorter prompt reader body w eats later =
    let (bad, v) = write_and_count prompt w in
    let i = (write_and_count-Counted prompt w).1 in
    elim (Bool-cases bad) [
      | inl t ↦ rw (t, prompted) tt
      | inr t ↦ elim (Outcome-cases (reader v.channel).0) [
        | inl (l, e) ↦
            let u : World = record v { channel = (reader v.channel).1 } in
            let k =
              Within-Shorter (length u.channel.input) (length v.channel.input) (body l u)
                (eats v.channel l e) (later l u) in
            rw (t, e, prompted) (rw i at k)
        | inr (x, e) ↦ rw (t, e, prompted) tt
      ]
    ]
