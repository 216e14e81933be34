-- ===== src/Session/Sent.antt =====
-- The count of the bytes sent, on every branch of the emission.
use rconfig_sim.Session.Emit.{cut_stream, write_stream, trailing, finish, emit_config, emit}
use rconfig_sim.Command.{Command}
use rconfig_sim.Base.{
  Bool-cases, length, take, length-append, length-take, Bytes, ℕ, ◌+◌, ◌*◌, ◌/◌, ◌≡◌, refl, ◌∙◌,
  inl, inr, Bool, false, List, [], ◌∷◌, arith,
}
use rconfig_sim.Channel.Writes.{written-write}
use rconfig_sim.Fault.{disconnect_mid, malformed}
use rconfig_sim.Response.{Response}
use rconfig_sim.Channel.{write}
use rconfig_sim.Session.{
  is_disconnect, write_and_count, write_all, observe_cmd, count_fault, set_outcome, hard_close_tcp,
  draw, roll_fault, Config, World,
}
use rconfig_sim.Session.Malformed.{truncated, flipped, corrupted, write_malformed}

-- From `w` to `v` the count of the bytes sent and what the client got grow by as much, and the
-- client's input is not touched.
abbrev pub Counted : World → World → Type 0
Counted w v =
    (v.bytes_sent + length w.channel.written ≡ w.bytes_sent + length v.channel.written)
    × (v.channel.input ≡ w.channel.input)

pub write_and_count-Counted : (p : Bytes) (w : World) → Counted w (write_and_count p w).1
unfolding write_and_count
write_and_count-Counted p w = ground (
  arith,
  written-write p w.channel,
  length-append w.channel.written (take (write p w.channel).1 p),
  length-take (write p w.channel).1 p,
)

write_all-Counted : (ps : List Bytes) (w : World) → Counted w (write_all ps w).1
unfolding write_all
write_all-Counted [] w = ground arith
write_all-Counted (p ∷ ps) w =
    ground (arith, write_and_count-Counted p w, write_all-Counted ps (write_and_count p w).1)

flipped-Counted : (body : Bytes) (w : World) → Counted w (flipped body w).1
unfolding flipped draw
flipped-Counted body w = ground arith

corrupted-Counted : (mode : ℕ) (body : Bytes) (w : World) → Counted w (corrupted mode body w).1
unfolding corrupted truncated draw
corrupted-Counted mode body w = ground (arith, flipped-Counted body w)

Counted-trans : (w v u : World) → Counted w v → Counted v u → Counted w u
Counted-trans w v u h k = (omega arith, k.1 ∙ h.1)

write_malformed-Counted : (body : Bytes) (w : World) → Counted w (write_malformed body w).1
unfolding write_malformed draw
write_malformed-Counted [] w = (refl, refl)
write_malformed-Counted (b ∷ body) w =
    let v = (draw 3 w).1 in
    let mode = (draw 3 w).0 in
    let u = corrupted mode (b ∷ body) v in
    Counted-trans v u.1 (write_all u.0 u.1).1 (corrupted-Counted mode (b ∷ body) v)
      (write_all-Counted u.0 u.1)

cut_stream-Counted : (cmd : Command) (body : Bytes) (w : World) → Counted w (cut_stream cmd body w)
unfolding cut_stream draw count_fault set_outcome observe_cmd hard_close_tcp
cut_stream-Counted cmd body w =
    let v = (draw 21 w).1 in
    let n = length body * (20 + (draw 21 w).0) / 100 in
    ground (arith, write_and_count-Counted (take n body) v)

write_stream-Counted : (c : Config) (body : Bytes) (w : World) → Counted w (write_stream c body w).1
unfolding write_stream roll_fault count_fault
write_stream-Counted c body w =
    let v = (roll_fault c malformed w).1 in
    ground (arith, write_malformed-Counted body v, write_and_count-Counted body v)

finish-Counted : (cmd : Command) (r : Bool × World) → Counted r.1 (finish cmd r).1
unfolding finish observe_cmd
finish-Counted cmd r = ground arith

emit_config-Counted :
    (c : Config) (cmd : Command) (body trailer : Bytes) (w : World)
    → Counted w (emit_config c cmd body trailer w).1
unfolding emit_config roll_fault
emit_config-Counted c cmd body trailer w = elim (Bool-cases (is_disconnect c.profile)) [
  | inl d ↦ rw d (cut_stream-Counted cmd body w)
  | inr d ↦
      let v = (roll_fault c disconnect_mid w).1 in
      let u = (write_stream c body v).1 in
      let t = write_all (trailing trailer) u in
      rw d (
        ground (
          arith,
          cut_stream-Counted cmd body v,
          write_stream-Counted c body v,
          write_all-Counted (trailing trailer) u,
          finish-Counted cmd t,
        ))
]

-- On every branch of the shared emission, failed writes and injected faults included, the counter
-- of bytes sent grows by exactly the bytes that the client got, and no input is consumed.
pub emit-Counted :
    (c : Config) (cmd : Command) (resp : Response) (w : World) → Counted w (emit c cmd resp w).1
unfolding emit
emit-Counted c cmd resp w =
    let v = (write_and_count resp.output w).1 in
    ground (
      arith,
      write_and_count-Counted resp.output w,
      emit_config-Counted c cmd resp.config_output resp.trailer w,
      emit_config-Counted c cmd resp.config_output resp.trailer v,
      finish-Counted cmd (false, w),
      finish-Counted cmd (false, v),
    )
