-- ===== src/Tl1/Read.antt =====
-- internal/sshsrv/tl1.go: `readTL1`.
pub mod Quoting
use rconfig_sim.Line.{is_printable, rubout}
use rconfig_sim.Channel.{
  read_loop, Channel, eof, user_aborted, Outcome, line, failed, Action, next, return,
}
use rconfig_sim.Base.{
  ◌==◌, if◌then◌else◌, Bytes, codes, crlf, ℕ, Bool, false, not, ◌||◌, [], ◌∷◌, reverse,
}

-- The buffer is kept with the last byte first.
pub record Scan : Type 0 where
  pub buf : Bytes
  pub in_quote : Bool

abbrev push : Scan → ℕ → Scan
push s c = record s { buf = c ∷ s.buf }

-- 0x7f and 0x08: the byte goes, and with a quote its effect.
tl1_erase : Scan → Bytes → Action Scan
tl1_erase s [] = next s []
tl1_erase s (b ∷ buf) =
    next (record { buf = buf; in_quote = if b == b'"' then not s.in_quote else s.in_quote }) rubout

tl1_ctrl_d : Scan → Bytes → Action Scan
tl1_ctrl_d s [] = return (failed eof) []
tl1_ctrl_d s (b ∷ buf) = next s []

-- The `default` case.
tl1_data : Scan → ℕ → Action Scan
tl1_data s c =
    if is_printable c
    then next (push (record s { in_quote = if c == b'"' then not s.in_quote else s.in_quote }) c)
        (c ∷ [])
    else next s []

-- The `switch` on one byte.
pub tl1_key : Scan → ℕ → Action Scan
unfolding tl1_erase tl1_ctrl_d tl1_data
tl1_key s c =
    if c == 0x7f || c == 0x08
    then tl1_erase s s.buf
    else if c == b';'
    then (if s.in_quote
        then next (push s c) (c ∷ [])
        else return (line (reverse s.buf)) (b';' ∷ crlf))
    else if c == 0x0d || c == 0x0a
    then next s crlf
    else if c == 0x03
    then return (failed user_aborted) (codes "^C\r\n")
    else if c == 0x04
    then tl1_ctrl_d s s.buf
    else tl1_data s c

-- `readTL1`.
unfoldable pub read_tl1 : Channel → Outcome × Channel
read_tl1 ch = read_loop tl1_key ch.input (record { buf = []; in_quote = false }) ch
