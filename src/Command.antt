-- ===== src/Command.antt =====
-- internal/sshsrv/dispatch.go: the commands, and the labels that they have in metrics and logs.
pub mod Labels
use rconfig_sim.Base.{◌==◌, Bytes, codes, ℕ, Bool}

pub data Command : Type 0 where
  unknown empty ambiguous terminal_length terminal_pager enable show_version : Command
  show_running_config show_startup_config show_inventory exit : Command
  tl1_unknown tl1_deny tl1_act_user tl1_rtrv_eqpt tl1_rtrv_alm_all tl1_rtrv_cond_all : Command
  tl1_rtrv_active_user tl1_rtrv_sw_ver tl1_rtrv_sys tl1_rtrv_ne_list tl1_rtrv_tidmap : Command
  tl1_rtrv_map_network junos_set_cli junos_show_configuration file : Command

-- The value of the Go constant.
unfoldable pub iota : Command → ℕ
iota unknown = 0
iota empty = 1
iota ambiguous = 2
iota terminal_length = 3
iota terminal_pager = 4
iota enable = 5
iota show_version = 6
iota show_running_config = 7
iota show_startup_config = 8
iota show_inventory = 9
iota exit = 10
iota tl1_unknown = 11
iota tl1_deny = 12
iota tl1_act_user = 13
iota tl1_rtrv_eqpt = 14
iota tl1_rtrv_alm_all = 15
iota tl1_rtrv_cond_all = 16
iota tl1_rtrv_active_user = 17
iota tl1_rtrv_sw_ver = 18
iota tl1_rtrv_sys = 19
iota tl1_rtrv_ne_list = 20
iota tl1_rtrv_tidmap = 21
iota tl1_rtrv_map_network = 22
iota junos_set_cli = 23
iota junos_show_configuration = 24
iota file = 25

-- `Command.String`. The model has no values outside the constants, so no `default`.
unfoldable pub to_string : Command → Bytes
to_string unknown = codes "CmdUnknown"
to_string empty = codes "CmdEmpty"
to_string ambiguous = codes "CmdAmbiguous"
to_string terminal_length = codes "CmdTerminalLength"
to_string terminal_pager = codes "CmdTerminalPager"
to_string enable = codes "CmdEnable"
to_string show_version = codes "CmdShowVersion"
to_string show_running_config = codes "CmdShowRunningConfig"
to_string show_startup_config = codes "CmdShowStartupConfig"
to_string show_inventory = codes "CmdShowInventory"
to_string exit = codes "CmdExit"
to_string tl1_unknown = codes "CmdTL1Unknown"
to_string tl1_deny = codes "CmdTL1Deny"
to_string tl1_act_user = codes "CmdTL1ActUser"
to_string tl1_rtrv_eqpt = codes "CmdTL1RtrvEqpt"
to_string tl1_rtrv_alm_all = codes "CmdTL1RtrvAlmAll"
to_string tl1_rtrv_cond_all = codes "CmdTL1RtrvCondAll"
to_string tl1_rtrv_active_user = codes "CmdTL1RtrvActiveUser"
to_string tl1_rtrv_sw_ver = codes "CmdTL1RtrvSwVer"
to_string tl1_rtrv_sys = codes "CmdTL1RtrvSys"
to_string tl1_rtrv_ne_list = codes "CmdTL1RtrvNeList"
to_string tl1_rtrv_tidmap = codes "CmdTL1RtrvTidmap"
to_string tl1_rtrv_map_network = codes "CmdTL1RtrvMapNetwork"
to_string junos_set_cli = codes "CmdJunosSetCli"
to_string junos_show_configuration = codes "CmdJunosShowConfiguration"
to_string file = codes "file"

-- `==` on commands.
unfoldable pub same : Command → Command → Bool
unfolding iota
same a b = iota a == iota b
