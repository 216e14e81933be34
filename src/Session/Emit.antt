-- ===== src/Session/Emit.antt =====
-- internal/sshsrv/driver.go: `emit`.
pub mod Cut
pub mod Plain
use rconfig_sim.Base.{
  ltb, if◌then◌else◌, length, take, Bytes, codes, crlf, ◌+◌, ◌*◌, ◌/◌, Bool, true, false, List, [],
  ◌∷◌,
}
use rconfig_sim.Session.{
  is_disconnect, write_and_count, write_all, observe_cmd, count_fault, set_outcome, hard_close_tcp,
  draw, roll_fault, Config, World,
}
use rconfig_sim.Session.Malformed.{write_malformed}
use rconfig_sim.Fault.{disconnect_mid, malformed}
use rconfig_sim.Response.{Response}
use rconfig_sim.Command.{Command}

-- The cut of the stream: a fifth to two fifths of it, then a hard close.
unfoldable pub cut_stream : Command → Bytes → World → World
unfolding count_fault set_outcome observe_cmd hard_close_tcp
cut_stream cmd body w =
    let (k, v) = draw 21 w in
    let n = length body * (20 + k) / 100 in
    hard_close_tcp (
      observe_cmd cmd (
        set_outcome (codes "disconnect")
          (count_fault disconnect_mid (write_and_count (take n body) v).1)))

-- The stream, which the malformed fault corrupts: whether a write failed.
unfoldable pub write_stream : Config → Bytes → World → Bool × World
unfolding write_malformed count_fault
write_stream c body w =
    let (hit, v) = roll_fault c malformed w in
    if hit
    then (let (bad, u) = write_malformed body v in
        (bad, if bad then u else count_fault malformed u))
    else write_and_count body v

-- The trailer, and the line end before the next prompt.
unfoldable pub trailing : Bytes → List Bytes
trailing trailer = if ltb 0 (length trailer) then trailer ∷ crlf ∷ [] else crlf ∷ []

-- The end of `emit`: observed unless a write failed.
unfoldable pub finish : Command → Bool × World → Bool × World
unfolding observe_cmd
finish cmd (bad, w) = if bad then (true, w) else (false, observe_cmd cmd w)

-- The configuration stream.
unfoldable pub emit_config : Config → Command → Bytes → Bytes → World → Bool × World
unfolding cut_stream write_stream trailing finish
emit_config c cmd body trailer w =
    let (rolled, v) =
      if is_disconnect c.profile then (true, w) else roll_fault c disconnect_mid w in
    let (bad, u) = write_stream c body v in
    if rolled
    then (true, cut_stream cmd body v)
    else if bad
    then (true, u)
    else finish cmd (write_all (trailing trailer) u)

-- `emit`: whether the session must end.
unfoldable pub emit : Config → Command → Response → World → Bool × World
unfolding emit_config finish
emit c cmd resp w =
    let (bad, v) =
      if ltb 0 (length resp.output) then write_and_count resp.output w else (false, w) in
    if bad
    then (true, v)
    else if ltb 0 (length resp.config_output)
    then emit_config c cmd resp.config_output resp.trailer v
    else finish cmd (false, v)
