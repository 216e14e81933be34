-- ===== src/Tests/Lines.antt =====
-- Lines read from a channel, with and without echo.
use rconfig_sim.Base.{
  take, Bytes, codes, ◌≤◌, ◌≡◌, refl, ◌↔◌, true, false, none, some, [], ◌∷◌, ◌++◌,
}
use rconfig_sim.Channel.{typed, write, echo, read_loop, byte, Channel, user_aborted, line, failed}
use rconfig_sim.Line.{key, read_line}
use rconfig_sim.Line.Editing.{read_line-edits}
use rconfig_sim.Line.Hidden.{farewell, read_line_hidden}
use rconfig_sim.Channel.Writes.{written-write}

-- The client types "ab", a rubout, "c", then CRLF, then "x".
abbrev keys : Bytes
keys = b'a' ∷ b'b' ∷ 0x7f ∷ b'c' ∷ []

abbrev a_channel : Channel
a_channel = record {
  input = typed keys ++ (byte 0x0d ∷ byte 0x0a ∷ byte b'x' ∷ []);
  room = some 4;
  written = [];
}

-- The line feed of a CRLF is left, and reads as an empty line.
read_line_crlf : (read_line true a_channel).1.input ≡ byte 0x0a ∷ byte b'x' ∷ []
unfolding read_line read_loop key write
read_line_crlf = refl

echo_room : (read_line true a_channel).1.written ≡ b'a' ∷ b'b' ∷ 0x08 ∷ 0x20 ∷ []
unfolding read_line read_loop key write
echo_room = refl

read_line-edits_example :
    ((read_line true a_channel).0 ≡ line (codes "ac"))
    × ((read_line true a_channel).1.input ≡ byte 0x0a ∷ byte b'x' ∷ [])
read_line-edits_example = read_line-edits true a_channel

-- A password that is left by Ctrl-C.
abbrev aborted_channel : Channel
aborted_channel = record { input = typed keys ++ (byte 0x03 ∷ []); room = none; written = [] }

aborted_outcome : (read_line false aborted_channel).0 ≡ failed user_aborted
unfolding read_line read_loop key write
aborted_outcome = refl

read_line_hidden_example :
    (read_line false aborted_channel).1
    ≡ record (echo (farewell (read_line false aborted_channel).0) aborted_channel) {
      input = (read_line false aborted_channel).1.input;
    }
read_line_hidden_example = read_line_hidden aborted_channel

written-write_example :
    ((write (codes "hello") a_channel).0.written
      ≡ [] ++ take (write (codes "hello") a_channel).1 (codes "hello"))
    × ((write (codes "hello") a_channel).1 ≤ 5)
    × ((write (codes "hello") a_channel).0.input ≡ a_channel.input)
    × (((write (codes "hello") a_channel).2 ≡ false) ↔ ((write (codes "hello") a_channel).1 ≡ 5))
written-write_example = written-write (codes "hello") a_channel
