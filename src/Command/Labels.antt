-- ===== src/Command/Labels.antt =====
-- The labels of the commands: a label is decoded by search through the constants.
use rconfig_sim.Base.{
  if◌then◌else◌, Bytes, equal, ◌≡◌, refl, ◌↔◌, true, Option, none, some, List, [], ◌∷◌, arith,
}
use rconfig_sim.Command.{
  Command, iota, to_string, same, unknown, empty, ambiguous, terminal_length, terminal_pager,
  enable, show_version, show_running_config, show_startup_config, show_inventory, exit, tl1_unknown,
  tl1_deny, tl1_act_user, tl1_rtrv_eqpt, tl1_rtrv_alm_all, tl1_rtrv_cond_all, tl1_rtrv_active_user,
  tl1_rtrv_sw_ver, tl1_rtrv_sys, tl1_rtrv_ne_list, tl1_rtrv_tidmap, tl1_rtrv_map_network,
  junos_set_cli, junos_show_configuration, file,
}

abbrev all_commands : List Command
all_commands =
    unknown ∷ empty ∷ ambiguous ∷ terminal_length ∷ terminal_pager ∷ enable ∷ show_version
    ∷ show_running_config ∷ show_startup_config ∷ show_inventory ∷ exit ∷ tl1_unknown ∷ tl1_deny
    ∷ tl1_act_user ∷ tl1_rtrv_eqpt ∷ tl1_rtrv_alm_all ∷ tl1_rtrv_cond_all ∷ tl1_rtrv_active_user
    ∷ tl1_rtrv_sw_ver ∷ tl1_rtrv_sys ∷ tl1_rtrv_ne_list ∷ tl1_rtrv_tidmap ∷ tl1_rtrv_map_network
    ∷ junos_set_cli ∷ junos_show_configuration ∷ file ∷ []

of_label : List Command → Bytes → Option Command
of_label [] s = none
of_label (c ∷ cs) s = if equal (to_string c) s then some c else of_label cs s

of_label-to_string : (c : Command) → of_label all_commands (to_string c) ≡ some c
unfolding of_label to_string equal
of_label-to_string unknown = refl
of_label-to_string _ = refl

-- Two commands with one label are one command, so a metric series stands for one command.
pub to_string-injective : (a b : Command) → to_string a ≡ to_string b → a ≡ b
to_string-injective a b h = cc (of_label-to_string a, of_label-to_string b)

pub same_iff : (a b : Command) → (same a b ≡ true) ↔ (a ≡ b)
unfolding same iota
same_iff a b = ground arith
