-- ===== src/Session/Malformed.antt =====
-- internal/sshsrv/session.go: `writeMalformed`.
pub mod Corrupts
use rconfig_sim.Base.{
  leb, ◌==◌, if◌then◌else◌, length, get_or, take, drop, Bytes, codes, ℕ, ◌+◌, ◌-◌, ◌*◌, ◌/◌, Bool,
  false, List, [], ◌∷◌,
}
use Prim.Native.Nat.{max}
use rconfig_sim.Session.{write_all, draw, World}

abbrev pub malformed_marker : Bytes
malformed_marker = codes "\r\n!!! RCFG-SIM-MALFORMED-FAULT-INJECTION-MARKER !!!\r\n"

-- Mode 0: all but the last 1 to 10 percent.
unfoldable pub truncated : Bytes → World → List Bytes × World
truncated body w =
    let (k, v) = draw 10 w in (take (max (length body * (90 + k) / 100) 1) body ∷ [], v)

-- Mode 1: the marker in the middle.
unfoldable pub injected : Bytes → List Bytes
injected body = let mid = length body / 2 in take mid body ∷ malformed_marker ∷ drop mid body ∷ []

-- `b ^ 0xFF`, for a byte.
unfoldable pub flip : ℕ → ℕ
flip b = 255 - b

-- Mode 2: a byte of the middle half is flipped, if there is one.
unfoldable pub flipped : Bytes → World → List Bytes × World
unfolding flip
flipped body w =
    let lo = length body / 4 in
    let hi = 3 * length body / 4 in
    let (k, v) = draw (hi - lo) w in
    let off = lo + k in
    if leb hi lo
    then (body ∷ [], w)
    else (take off body ∷ (flip (get_or body off 0) ∷ []) ∷ drop (off + 1) body ∷ [], v)

unfoldable pub corrupted : ℕ → Bytes → World → List Bytes × World
corrupted mode body w =
    if mode == 0 then truncated body w else if mode == 1 then (injected body, w) else flipped body w

-- `writeMalformed`: whether a write failed.
unfoldable pub write_malformed : Bytes → World → Bool × World
unfolding corrupted
write_malformed [] w = (false, w)
write_malformed (b ∷ body) w =
    let (mode, v) = draw 3 w in let (pieces, u) = corrupted mode (b ∷ body) v in write_all pieces u
