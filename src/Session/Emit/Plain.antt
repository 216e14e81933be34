-- ===== src/Session/Emit/Plain.antt =====
-- `emit` when no fault strikes.
use rconfig_sim.Fault.{enabled, roll, Fault, disconnect_mid, malformed, FaultSet, Rng}
use rconfig_sim.Base.{
  ltb, if◌then◌else◌, lt→ltb, length, length-append, Bytes, crlf, ◌+◌, ◌≤◌, ◌≡◌, refl, ap, inl, inr,
  false, Option, none, some, List, [], ◌∷◌, ◌++◌, append-nil, append_assoc, arith, ltb_cases,
}
use rconfig_sim.Channel.Writes.{write_open}
use rconfig_sim.Tl1.Block.{concat}
use rconfig_sim.Session.{
  is_disconnect, write_and_count, write_all, observe_cmd, roll_fault, Config, World,
}
use rconfig_sim.Session.Emit.{write_stream, trailing, finish, emit_config, emit}
use rconfig_sim.Command.{Command}
use rconfig_sim.Response.{Response}

-- The world after the client has got these bytes.
abbrev pub delivered : Bytes → World → World
delivered out w = record w {
  channel = record w.channel { written = w.channel.written ++ out };
  bytes_sent = w.bytes_sent + length out;
}

pub length_nil : (xs : Bytes) → length xs ≤ 0 → xs ≡ []
length_nil [] h = refl
length_nil (x ∷ xs) h = absurd (omega arith)

pub write_and_count_open :
    (p : Bytes) (w : World) → w.channel.room ≡ none → write_and_count p w ≡ (false, delivered p w)
unfolding write_and_count
write_and_count_open p w h = rw (write_open p w.channel h) refl

delivered-append : (p q : Bytes) (w : World) → delivered q (delivered p w) ≡ delivered (p ++ q) w
delivered-append p q w = ground (arith, append_assoc w.channel.written p q, length-append p q)

pub write_all_open :
    (ps : List Bytes) (w : World)
    → w.channel.room ≡ none
    → write_all ps w ≡ (false, delivered (concat ps) w)
unfolding write_all
write_all_open [] w h = ground (arith, append-nil w.channel.written)
write_all_open (p ∷ ps) w h =
    rw (write_and_count_open p w h, write_all_open ps (delivered p w) h)
      (ap (λ (v : World). (false, v)) (delivered-append p (concat ps) w))

-- What the client should see of a response.
abbrev pub shown : Response → Bytes
shown resp =
    resp.output
    ++ (if ltb 0 (length resp.config_output)
        then resp.config_output ++ (resp.trailer ++ crlf)
        else [])

roll_disabled :
    (s : Option FaultSet) (t : Fault) (r : Rng) → enabled s t ≡ false → roll s t r ≡ (false, r)
unfolding roll
roll_disabled none t r h = refl
roll_disabled (some s) t r h = rw h refl

roll_fault_disabled :
    (c : Config) (t : Fault) (w : World)
    → enabled c.faults t ≡ false
    → roll_fault c t w ≡ (false, w)
unfolding roll_fault
roll_fault_disabled c t w h = rw (roll_disabled c.faults t w.rng h) refl

concat-trailing : (trailer : Bytes) → concat (trailing trailer) ≡ trailer ++ crlf
unfolding trailing
concat-trailing [] = refl
concat-trailing (b ∷ trailer) = ground arith

module _ (c : Config) (cmd : Command) (d : is_disconnect c.profile ≡ false)
    (e : enabled c.faults disconnect_mid ≡ false) (f : enabled c.faults malformed ≡ false) where
  emit_config_plain :
      (body trailer : Bytes) (w : World)
      → w.channel.room ≡ none
      → emit_config c cmd body trailer w
        ≡ (false, observe_cmd cmd (delivered (body ++ (trailer ++ crlf)) w))
  unfolding emit_config write_stream finish
  emit_config_plain body trailer w h =
      rw
        (
          d,
          roll_fault_disabled c disconnect_mid w e,
          roll_fault_disabled c malformed w f,
          write_and_count_open body w h,
          write_all_open (trailing trailer) (delivered body w) h,
          concat-trailing trailer,
        )
        (ap (λ (v : World). (false, observe_cmd cmd v)) (delivered-append body (trailer ++ crlf) w))

  emit_rest :
      (body trailer : Bytes) (w : World)
      → w.channel.room ≡ none
      → (if ltb 0 (length body) then emit_config c cmd body trailer w else finish cmd (false, w))
        ≡ (
          false,
          observe_cmd cmd
              (delivered (if ltb 0 (length body) then body ++ (trailer ++ crlf) else []) w),
        )
  unfolding finish
  emit_rest [] trailer w h = ground (arith, append-nil w.channel.written)
  emit_rest (b ∷ body) trailer w h = ground (arith, emit_config_plain (b ∷ body) trailer w h)

  -- Without a fault that is on and a disconnect profile, a client that keeps reading gets a response
  -- exactly: its text, then its stream, the trailer and a line end if it has a stream. The session
  -- goes on, the command is observed once, and no random number is drawn.
  pub emit_plain :
      (resp : Response) (w : World)
      → w.channel.room ≡ none
      → emit c cmd resp w ≡ (false, observe_cmd cmd (delivered (shown resp) w))
  unfolding emit finish
  emit_plain resp w h =
      let rest =
        if ltb 0 (length resp.config_output)
        then resp.config_output ++ (resp.trailer ++ crlf)
        else [] in
      elim (ltb_cases 0 (length resp.output)) [
        | inl o ↦
            rw
              (
                lt→ltb 0 (length resp.output) o,
                write_and_count_open resp.output w h,
                emit_rest resp.config_output resp.trailer (delivered resp.output w) h,
              )
              (ap (λ (v : World). (false, observe_cmd cmd v)) (delivered-append resp.output rest w))
        | inr o ↦ rw (length_nil resp.output o) (emit_rest resp.config_output resp.trailer w h)
      ]
