-- ===== src/Session/Emit/Cut.antt =====
-- The disconnect profile in `emit`.
use rconfig_sim.Text.{cut}
use rconfig_sim.Channel.{write}
use rconfig_sim.Channel.Writes.{
  write_nothing, accepted, takes_all, room_after, write-accepted, accepted-append, accepted_whole,
  accepted_short,
}
use rconfig_sim.Response.{Response}
use rconfig_sim.Session.Emit.Plain.{length_nil}
use native.Mathlib.Nat.{mul-le-mul_left}
use rconfig_sim.Fault.{intn, intn_lt, disconnect_mid}
use rconfig_sim.Base.{
  if◌then◌else◌, lt→ltb, Bool-cases, length, take, Bytes, codes, equal, ℕ, ◌+◌, ◌*◌, ◌/◌, ◌≤◌, ◌<◌,
  ◌≡◌, refl, sym, ap, ◌∙◌, ◌⊎◌, inl, inr, true, false, not, Option, [], ◌∷◌, ◌++◌, append_assoc,
  arith, ltb_cases,
}
use rconfig_sim.Session.{
  is_disconnect, write_and_count, observe_cmd, count_fault, set_outcome, hard_close_tcp, draw,
  Config, World,
}
use rconfig_sim.Session.Emit.{cut_stream, emit_config, emit}
use rconfig_sim.Command.{Command}

-- The length of the prefix that the client gets.
abbrev pub cut_length : Bytes → World → ℕ
cut_length body w = length body * (20 + (intn 21 w.rng).0) / 100

cut_length_bounds :
    (body : Bytes) (w : World)
    → (length body * 20 / 100 ≤ cut_length body w) × (cut_length body w ≤ length body * 40 / 100)
cut_length_bounds body w =
    let k = (intn 21 w.rng).0 in
    let h : k < 21 = intn_lt 21 w.rng (omega arith) in
    let low : 20 ≤ 20 + k = omega arith in
    let high : 20 + k ≤ 40 = omega arith in
    let a = mul-le-mul_left (length body) low in
    let b = mul-le-mul_left (length body) high in omega arith

-- The world after the cut, and after a text that the channel did not take whole.
abbrev pub IsCutOff : Command → World → World → Type 0
IsCutOff cmd w u =
    (u.tcp_closed ≡ true)
    × (u.faults_injected ≡ disconnect_mid ∷ w.faults_injected)
    × (u.observed ≡ cmd ∷ w.observed)
    × (u.outcome ≡ (if equal w.outcome (codes "ok") then codes "disconnect" else w.outcome))

abbrev pub IsLeft : World → World → Type 0
IsLeft w u =
    (u.tcp_closed ≡ w.tcp_closed)
    × (u.faults_injected ≡ w.faults_injected)
    × (u.observed ≡ w.observed)
    × (u.outcome ≡ w.outcome)

-- The client has these bytes, or as many of them as its channel takes.
abbrev pub Got : Bytes → World → World → Type 0
Got p w u = u.channel.written ≡ w.channel.written ++ accepted w.channel.room p

cut_stream-IsCutOff :
    (cmd : Command) (body : Bytes) (w : World)
    → IsCutOff cmd w (cut_stream cmd body w)
      × Got (take (cut_length body w) body) w (cut_stream cmd body w)
unfolding cut_stream draw count_fault set_outcome observe_cmd hard_close_tcp write_and_count
cut_stream-IsCutOff cmd body w =
    let got = (write-accepted (take (cut_length body w) body) w.channel).0 in
    elim (Bool-cases (equal w.outcome (codes "ok"))) [
      | inl t ↦ rw t ((refl, refl, refl, refl), got)
      | inr t ↦ rw t ((refl, refl, refl, refl), got)
    ]

write_and_count_nil : (w : World) → write_and_count [] w ≡ (false, w)
unfolding write_and_count
write_and_count_nil w =
    let e : w.bytes_sent + 0 ≡ w.bytes_sent = omega arith in rw (write_nothing w.channel, e) refl

-- The text, and then the cut.
emit-cut_stream :
    (c : Config) (cmd : Command) (resp : Response) (w : World)
    → is_disconnect c.profile ≡ true
    → 1 ≤ length resp.config_output
    → emit c cmd resp w ≡ (
      true,
      (if (write_and_count resp.output w).0
          then (write_and_count resp.output w).1
          else cut_stream cmd resp.config_output (write_and_count resp.output w).1),
    )
unfolding emit emit_config
emit-cut_stream c cmd resp w d l =
    let b = lt→ltb 0 (length resp.config_output) l in
    elim (ltb_cases 0 (length resp.output)) [
      | inl p ↦ elim (Bool-cases (write_and_count resp.output w).0) [
        | inl t ↦ rw (lt→ltb 0 (length resp.output) p, t) refl
        | inr t ↦ rw (lt→ltb 0 (length resp.output) p, t, b, d) refl
      ]
      | inr p ↦ rw (length_nil resp.output p, write_and_count_nil w, b, d) refl
    ]

-- How the session ends: the text fits and the stream is cut, or the text does not fit.
abbrev pub Ends : Command → Bytes → World → World → Type 0
Ends cmd text w u =
    (takes_all w.channel.room text ≡ true) × IsCutOff cmd w u
    ⊎ (takes_all w.channel.room text ≡ false) × IsLeft w u

-- A device with the disconnect profile ends the session on every response that has a configuration
-- stream. There is a length n, of a fifth to two fifths of the stream, and the client gets the text and
-- n bytes of the stream, or as much of this as its channel takes. If the channel takes the text, the
-- TCP connection is closed, a disconnect_mid fault is counted, the command is observed, and an outcome
-- of "ok" becomes "disconnect"; if not, these stay as they are.
pub emit_cut :
    (c : Config) (cmd : Command) (resp : Response) (w : World)
    → is_disconnect c.profile ≡ true
    → 1 ≤ length resp.config_output
    → (n : ℕ) × (length resp.config_output * 20 / 100 ≤ n)
      × (n ≤ length resp.config_output * 40 / 100)
      × ((emit c cmd resp w).0 ≡ true)
      × Got (resp.output ++ take n resp.config_output) w (emit c cmd resp w).1
      × Ends cmd resp.output w (emit c cmd resp w).1
unfolding write_and_count
emit_cut c cmd resp w d l =
    let (low, high) = cut_length_bounds resp.config_output w in
    let n = cut_length resp.config_output w in
    let q = take n resp.config_output in
    let v = (write_and_count resp.output w).1 in
    let e = emit-cut_stream c cmd resp w d l in
    let (got, bad, room) = write-accepted resp.output w.channel in
    elim (Bool-cases (takes_all w.channel.room resp.output)) [
      | inr t ↦
          let b : (write resp.output w.channel).2 ≡ true = bad ∙ ap not t in
          rw (e, b)
            (
              n,
              low,
              high,
              refl,
              got
                  ∙ ap (◌++◌ w.channel.written)
                      (sym (accepted_short w.channel.room resp.output q t)),
              inr (t, (refl, refl, refl, refl)),
            )
      | inl t ↦
          let b : (write resp.output w.channel).2 ≡ false = bad ∙ ap not t in
          let (off, cut) = cut_stream-IsCutOff cmd resp.config_output v in
          rw (e, b)
            (
              n,
              low,
              high,
              refl,
              (cut
                  ∙ (ap (λ (o : Option ℕ). v.channel.written ++ accepted o q) (room t)
                      ∙ (ap (λ (x : Bytes). x ++ accepted (room_after w.channel.room resp.output) q)
                            (got
                              ∙ ap (◌++◌ w.channel.written)
                                  (accepted_whole w.channel.room resp.output t))
                          ∙ (append_assoc w.channel.written resp.output _
                              ∙ ap (◌++◌ w.channel.written)
                                  (sym (accepted-append w.channel.room resp.output q t)))))),
              inl (t, off),
            )
    ]
