-- ===== src/Tests/Tl1.antt =====
-- TL1 commands read and taken apart.
use rconfig_sim.Base.{Bytes, codes, ◌≡◌, refl, inl, none, [], ◌∷◌, ◌++◌, arith}
use rconfig_sim.Tl1.Read.Quoting.{read_tl1-command}
use rconfig_sim.Tl1.Grammar.RoundTrip.{parse_tl1-Written, parse_act_user-act_user}
use rconfig_sim.Tl1.Grammar.{parse_tl1, unquote_tl1, parse_act_user}
use rconfig_sim.Text.{upper, trim_space}
use rconfig_sim.Channel.{typed, byte, Channel, line}
use rconfig_sim.Tl1.Read.{read_tl1}

-- ACT-USER with a password that holds a semicolon and a colon.
abbrev act_text : Bytes
act_text = codes "ACT-USER::admin:7::\"p;w:d\""

abbrev tl1_channel : Channel
tl1_channel = record {
  input = typed act_text ++ (byte b';' ∷ byte b'\n' ∷ []);
  room = none;
  written = [];
}

read_tl1-command_example :
    ((read_tl1 tl1_channel).0 ≡ line act_text) × ((read_tl1 tl1_channel).1.input ≡ byte b'\n' ∷ [])
read_tl1-command_example =
    read_tl1-command act_text (byte b'\n' ∷ []) tl1_channel (refl, ground arith) refl

parse_tl1-Written_example :
    parse_tl1 (codes " rtrv-eqpt:NODE-1:ALL:42 ")
    ≡ record { verb = codes "RTRV-EQPT"; tid = codes "NODE-1"; ctag = codes "42" }
unfolding trim_space upper
parse_tl1-Written_example =
    parse_tl1-Written (codes " rtrv-eqpt:NODE-1:ALL:42 ") (codes "rtrv-eqpt") (codes "NODE-1")
      (codes "ALL") (codes "42") [] (omega arith) (omega arith) (omega arith) (omega arith)
      (inl refl)

parse_act_user-act_user_example : parse_act_user act_text ≡ (codes "admin", codes "p;w:d")
unfolding unquote_tl1 trim_space
parse_act_user-act_user_example =
    parse_act_user-act_user (codes "admin") (codes "7") (codes "p;w:d") (omega arith) (omega arith)
