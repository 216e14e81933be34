-- ===== src/Channel.antt =====
-- The SSH channel of a session as `io.ReadWriter`, and the byte loop that internal/sshsrv/session.go
-- (`readLine`) and internal/sshsrv/tl1.go (`readTL1`) share.
pub mod Writes
pub mod Loop
use rconfig_sim.Base.{
  ltb, if◌then◌else◌, length, take, Bytes, ℕ, ◌-◌, Bool, true, false, Option, none, some, List, [],
  ◌∷◌, ◌++◌, map,
}

-- What one `Read` of one byte gives: a byte, or n = 0 with no error.
pub data Read : Type 0 where
  byte : ℕ → Read
  nothing : Read

-- What the client sends, byte by byte.
abbrev pub typed : Bytes → List Read
typed = map byte

-- `input` is what the client will have sent when its side ends; a read past its end fails.
-- With `room` at `some n` the channel takes n more bytes, and every write that needs more fails.
pub record Channel : Type 0 where
  pub input : List Read
  pub room : Option ℕ
  pub written : Bytes

-- A write within the room; the number of bytes taken, and whether it failed.
write_within : Option ℕ → Bytes → Channel → Channel × ℕ × Bool
write_within none p ch = (record ch { written = ch.written ++ p }, length p, false)
write_within (some n) p ch =
    if ltb n (length p)
    then (record ch { written = ch.written ++ take n p; room = some 0 }, n, true)
    else (record ch { written = ch.written ++ p; room = some (n - length p) }, length p, false)

-- `ch.Write(p)`.
unfoldable pub write : Bytes → Channel → Channel × ℕ × Bool
unfolding write_within
write p ch = write_within ch.room p ch

-- `_, _ = ch.Write(p)`.
abbrev pub echo : Bytes → Channel → Channel
echo p ch = (write p ch).0

-- How a read of a line fails: the channel's error or Ctrl-D, or Ctrl-C.
pub data Failure : Type 0 where
  eof user_aborted : Failure

pub data Outcome : Type 0 where
  line : Bytes → Outcome
  failed : Failure → Outcome

-- What a reader does with a byte: go on in a new state, or return; either writes some bytes.
pub data Action (S : Type 0) : Type 0 where
  next : S → Bytes → Action S
  return : Outcome → Bytes → Action S

-- The `for` loop of both readers: it ends by a return, or when a read fails.
unfoldable pub read_loop :
    {S : Type 0} → (S → ℕ → Action S) → List Read → S → Channel → Outcome × Channel
read_loop step [] s ch = (failed eof, record ch { input = [] })
read_loop step (nothing ∷ rest) s ch = read_loop step rest s ch
read_loop step (byte c ∷ rest) s ch = elim (step s c) [
  | next t out ↦ read_loop step rest t (echo out ch)
  | return r out ↦ (r, record (echo out ch) { input = rest })
]
