-- ===== src/Line/Hidden.antt =====
-- What `readLine` writes with echo off.
use rconfig_sim.Base.{
  ◌==◌, Bytes, codes, crlf, ℕ, ◌≡◌, refl, sym, ap, false, ◌||◌, List, [], ◌∷◌, if-both,
}
use rconfig_sim.Channel.Loop.{read_loop_next, read_loop_return}
use rconfig_sim.Channel.Writes.{write_nil}
use rconfig_sim.Channel.{
  echo, read_loop, Read, byte, nothing, Channel, eof, user_aborted, Outcome, line, failed, Action,
  next, return,
}
use rconfig_sim.Line.{is_printable, erase, ctrl_d, key, read_line}

-- What is written at the end, by the way the reading ends.
abbrev pub farewell : Outcome → Bytes
farewell (line s) = crlf
farewell (failed user_aborted) = codes "^C\r\n"
farewell (failed eof) = []

-- A key is not shown.
abbrev IsQuiet : Action Bytes → Type 0
IsQuiet (next t out) = out ≡ []
IsQuiet (return r out) = out ≡ farewell r

erase-IsQuiet : (buf : Bytes) → IsQuiet (erase false buf)
unfolding erase
erase-IsQuiet [] = refl
erase-IsQuiet (b ∷ buf) = refl

ctrl_d-IsQuiet : (buf : Bytes) → IsQuiet (ctrl_d buf)
unfolding ctrl_d
ctrl_d-IsQuiet [] = refl
ctrl_d-IsQuiet (b ∷ buf) = refl

key-IsQuiet : (buf : Bytes) (c : ℕ) → IsQuiet (key false buf c)
unfolding key
key-IsQuiet buf c = if-both IsQuiet (c == 0x7f || c == 0x08) (erase-IsQuiet buf) (
    if-both IsQuiet (c == 0x0d) refl (
      if-both IsQuiet (c == 0x0a) refl (
        if-both IsQuiet (c == 0x03) refl (
          if-both IsQuiet (c == 0x04) (ctrl_d-IsQuiet buf)
            (if-both IsQuiet (is_printable c) refl refl)))))

-- The channel has got nothing but the farewell.
abbrev IsHidden : Channel → Outcome × Channel → Type 0
IsHidden ch (o, k) = k ≡ record (echo (farewell o) ch) { input = k.input }

step-IsHidden :
    (c : ℕ) (buf : Bytes) (rest : List Read) (ch : Channel) (a : Action Bytes)
    → key false buf c ≡ a
    → IsQuiet a
    → ((t : Bytes) → IsHidden ch (read_loop (key false) rest t ch))
    → IsHidden ch (read_loop (key false) (byte c ∷ rest) buf ch)
step-IsHidden c buf rest ch (next t out) e q later =
    rw (read_loop_next (key false) c rest buf ch t out e, q, write_nil ch) (later t)
step-IsHidden c buf rest ch (return r out) e q later =
    rw (read_loop_return (key false) c rest buf ch r out e, q) refl

read_loop-IsHidden :
    (input : List Read) (buf : Bytes) (ch : Channel)
    → IsHidden ch (read_loop (key false) input buf ch)
unfolding read_loop
read_loop-IsHidden [] buf ch = ap (λ (k : Channel). record k { input = [] }) (sym (write_nil ch))
read_loop-IsHidden (nothing ∷ rest) buf ch = read_loop-IsHidden rest buf ch
read_loop-IsHidden (byte c ∷ rest) buf ch =
    step-IsHidden c buf rest ch (key false buf c) refl (key-IsQuiet buf c)
      (λ t. read_loop-IsHidden rest t ch)

-- With echo off, as for the enable password, the channel gets, as far as it takes it, only what tells
-- how the reading ended, whatever the client sends: a line end after a line, `^C` and a line end after
-- Ctrl-C, and nothing at the end of the input.
pub read_line_hidden :
    (ch : Channel)
    → (read_line false ch).1
      ≡ record (echo (farewell (read_line false ch).0) ch) { input = (read_line false ch).1.input }
unfolding read_line
read_line_hidden ch = read_loop-IsHidden ch.input [] ch
