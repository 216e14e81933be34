-- ===== src/Line.antt =====
-- internal/sshsrv/session.go: `readLine`.
pub mod Editing
pub mod Hidden
pub mod Printable
use rconfig_sim.Base.{
  ltb, leb, ◌==◌, if◌then◌else◌, Bytes, codes, crlf, ℕ, Bool, ◌&&◌, ◌||◌, [], ◌∷◌, reverse,
}
use rconfig_sim.Channel.{
  read_loop, Channel, eof, user_aborted, Outcome, line, failed, Action, next, return,
}

abbrev pub is_printable : ℕ → Bool
is_printable c = leb 0x20 c && ltb c 0x7f

abbrev pub rubout : Bytes
rubout = 0x08 ∷ 0x20 ∷ 0x08 ∷ []

-- What the key does to the buffer, which is kept with the last byte first.
unfoldable pub erase : Bool → Bytes → Action Bytes
erase shown [] = next [] []
erase shown (b ∷ buf) = next buf (if shown then rubout else [])

unfoldable pub ctrl_d : Bytes → Action Bytes
ctrl_d [] = return (failed eof) []
ctrl_d (b ∷ buf) = next (b ∷ buf) []

-- The `switch` on one byte.
unfoldable pub key : Bool → Bytes → ℕ → Action Bytes
unfolding erase ctrl_d
key shown buf c =
    if c == 0x7f || c == 0x08
    then erase shown buf
    else if c == 0x0d
    then return (line (reverse buf)) crlf
    else if c == 0x0a
    then return (line (reverse buf)) crlf
    else if c == 0x03
    then return (failed user_aborted) (codes "^C\r\n")
    else if c == 0x04
    then ctrl_d buf
    else if is_printable c
    then next (c ∷ buf) (if shown then c ∷ [] else [])
    else next buf []

unfoldable pub read_line : Bool → Channel → Outcome × Channel
read_line shown ch = read_loop (key shown) ch.input [] ch
