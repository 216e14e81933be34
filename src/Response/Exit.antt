-- ===== src/Response/Exit.antt =====
-- Which commands end the session, change its mode, or stream the config; the serial number in the
-- two canned outputs.
use rconfig_sim.Base.{
  Bytes, crlf, ◌≡◌, sym, ap, ◌∙◌, ◌↔◌, ◌⊎◌, true, false, List, [], ◌∷◌, ◌++◌, append_assoc, arith,
}
use rconfig_sim.Response.Canned.{
  lines, version_part_1, version_part_2, board_id, version_part_3, version_part_4, inventory_part_0,
  inventory_part_1, chassis_sn, inventory_part_2, inventory_part_3, inventory_part_4,
  show_version_for, show_inventory_for,
}
use rconfig_sim.Command.{
  Command, enable, show_version, show_running_config, show_startup_config, show_inventory, exit,
}
use rconfig_sim.Response.{dispatch, State}

-- Only `exit` closes the session or leaves enable mode, by the mode it is typed in; only `enable`
-- outside enable mode asks for the password; and the config is the output of just the two
-- config commands, which never have other text.
pub dispatch-effects :
    (c : Command) (s : State)
    → (((dispatch c s).close ≡ true) ↔ ((c ≡ exit) × (s.enable_mode ≡ false)))
      × (((dispatch c s).exit_enable ≡ true) ↔ ((c ≡ exit) × (s.enable_mode ≡ true)))
      × (((dispatch c s).request_enable_password ≡ true) ↔ ((c ≡ enable) × (s.enable_mode ≡ false)))
      × (((dispatch c s).config_output ≡ [])
          ⊎ (((c ≡ show_running_config) ⊎ (c ≡ show_startup_config))
              × ((dispatch c s).config_output ≡ s.config_bytes)
              × ((dispatch c s).output ≡ [])))
unfolding dispatch
dispatch-effects exit s = ground arith
dispatch-effects _ s = ground arith

-- The text holds `mark`, then `value`, then the end of that line.
abbrev pub HasLine : Bytes → Bytes → Bytes → Type 0
HasLine mark value text =
    (before : Bytes) × (after : Bytes) × (text ≡ before ++ (mark ++ (value ++ (crlf ++ after))))

HasLine-lines :
    (a b c mark value : Bytes) (rest : List Bytes)
    → HasLine mark value (lines (a ∷ b ∷ c ∷ mark ∷ value ∷ crlf ∷ rest))
HasLine-lines a b c mark value rest =
    (a ++ (b ++ c), lines rest, sym (append_assoc a (b ++ c) _ ∙ ap (◌++◌ a) (append_assoc b c _)))

-- "show version" and "show inventory" report the same serial number, the device's: on the line of
-- the processor board and on that of the chassis.
pub serial_agrees :
    (s : State)
    → HasLine board_id s.serial (dispatch show_version s).output
      × HasLine chassis_sn s.serial (dispatch show_inventory s).output
unfolding dispatch show_version_for show_inventory_for
serial_agrees s = (
  HasLine-lines version_part_1 s.hostname version_part_2 board_id s.serial
      (version_part_3 ∷ s.serial ∷ version_part_4 ∷ []),
  HasLine-lines inventory_part_0 s.hostname inventory_part_1 chassis_sn s.serial
      (inventory_part_2 ∷ s.serial ∷ inventory_part_3 ∷ s.serial ∷ inventory_part_4 ∷ []),
)
