-- ===== src/Response.antt =====
-- internal/sshsrv/dispatch.go: `Response`, `State`, `Dispatch`.
mod Canned
pub mod Exit
unfoldable pub use Canned.*
use rconfig_sim.Base.{if◌then◌else◌, Bytes, codes, Bool, true, false, []}
use rconfig_sim.Command.{
  Command, unknown, empty, ambiguous, terminal_length, terminal_pager, enable, show_version,
  show_running_config, show_startup_config, show_inventory, exit,
}

-- An empty slice stands for nil too: the session only looks at lengths.
pub record Response : Type 0 where
  pub output : Bytes
  pub config_output : Bytes
  pub trailer : Bytes
  pub request_enable_password : Bool
  pub close : Bool
  pub exit_enable : Bool

abbrev pub no_response : Response
no_response = record {
  output = [];
  config_output = [];
  trailer = [];
  request_enable_password = false;
  close = false;
  exit_enable = false;
}

abbrev pub text_response : Bytes → Response
text_response s = record no_response { output = s }

pub record State : Type 0 where
  pub hostname : Bytes
  pub serial : Bytes
  pub enable_mode : Bool
  pub config_bytes : Bytes

abbrev pub unknown_cmd_msg : Bytes
unknown_cmd_msg = codes "% Invalid input detected at '^' marker.\r\n\r\n"

abbrev pub ambiguous_cmd_msg : Bytes
ambiguous_cmd_msg = codes "% Ambiguous command:  \"\"\r\n"

-- `Dispatch`; the canonical text is not used. The last clause is `default`.
unfoldable pub dispatch : Command → State → Response
dispatch empty s = no_response
dispatch unknown s = text_response unknown_cmd_msg
dispatch ambiguous s = text_response ambiguous_cmd_msg
dispatch terminal_length s = no_response
dispatch terminal_pager s = no_response
dispatch enable s =
    if s.enable_mode then no_response else record no_response { request_enable_password = true }
dispatch show_version s = text_response (show_version_for s.hostname s.serial)
dispatch show_running_config s = record no_response { config_output = s.config_bytes }
dispatch show_startup_config s = record no_response { config_output = s.config_bytes }
dispatch show_inventory s = text_response (show_inventory_for s.hostname s.serial)
dispatch exit s =
    if s.enable_mode
    then record no_response { exit_enable = true }
    else record no_response { close = true }
dispatch _ s = text_response unknown_cmd_msg
