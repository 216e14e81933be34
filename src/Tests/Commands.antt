-- ===== src/Tests/Commands.antt =====
-- Command resolution, the canned answers, the labels, the texts.
use rconfig_sim.Text.{lower, to_lower, trim_space, has_prefix, split, fields}
use rconfig_sim.Text.Decimal.{decimal, decimal_padded}
use rconfig_sim.Resolve.{table, find_exact, matches, choose, resolve, Spec}
use rconfig_sim.Command.{same, ambiguous, terminal_length, show_running_config}
use rconfig_sim.Base.{codes, equal, ◌≡◌, refl, true, [], ◌∷◌, arith}
use rconfig_sim.Resolve.Sound.{resolve-Resolves, Resolves}
use rconfig_sim.Response.{State}

resolve_abbreviated :
    resolve (codes " sh RUN ") ≡ (show_running_config, codes "show running-config")
unfolding resolve trim_space fields find_exact matches choose same table has_prefix equal lower
resolve_abbreviated = refl

resolve_short : resolve (codes "show") ≡ (ambiguous, [])
unfolding resolve trim_space fields find_exact matches choose same table has_prefix equal lower
resolve_short = refl

split_colons : split (codes "a::b") b':' ≡ codes "a" ∷ [] ∷ codes "b" ∷ []
unfolding split
split_colons = refl

fields_spaces : fields (codes " show  run ") ≡ codes "show" ∷ codes "run" ∷ []
unfolding fields
fields_spaces = refl

decimal_padded_zeros : decimal_padded 10 1234567 ≡ codes "0001234567"
unfolding decimal_padded
decimal_padded_zeros = refl

decimal_word : decimal 18446744073709551615 ≡ codes "18446744073709551615"
unfolding decimal
decimal_word = refl

resolve-Resolves_example :
    Resolves
      (to_lower (trim_space (codes "sh run")))
      show_running_config
      (codes "show running-config")
unfolding resolve trim_space fields find_exact matches choose same table has_prefix equal lower
resolve-Resolves_example =
    resolve-Resolves (codes "sh run") show_running_config (codes "show running-config") refl
      (λ e. absurd (ground arith)) (λ e. absurd (ground arith)) (λ e. absurd (ground arith))

abbrev a_state : State
a_state = record {
  hostname = codes "edge-1";
  serial = codes "FTX1";
  enable_mode = true;
  config_bytes = codes "end\n";
}

abbrev first_row : Spec
first_row = record {
  canonical = codes "terminal length 0";
  tokens = codes "terminal" ∷ codes "length" ∷ codes "0" ∷ [];
  cmd = terminal_length;
}
