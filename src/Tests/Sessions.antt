-- ===== src/Tests/Sessions.antt =====
-- Sessions of a device with and without faults; the command files; the fault flags.
use rconfig_sim.Serve.Junos.{junos_turn}
use rconfig_sim.Command.{same, enable, show_running_config}
use rconfig_sim.Drivers.Vendor.{ciena_tl1}
use rconfig_sim.Drivers.Node.{new_session}
use rconfig_sim.Serve.Cisco.EnableMode.{password_read, cisco_command-enable}
use rconfig_sim.Serve.Total.{serve-total}
use rconfig_sim.Serve.Tl1Shell.{tl1_turn}
use rconfig_sim.Serve.Cisco.{
  check_enable, ask_enable, cisco_answer, cisco_command, cisco_turn, cisco_state,
}
use rconfig_sim.Serve.{serve_loop, prompted}
use rconfig_sim.Resolve.{table, find_exact, matches, choose, resolve}
use rconfig_sim.Channel.{typed, write, read_loop, line}
use rconfig_sim.Line.{key, read_line}
use rconfig_sim.Base.{
  ltb, if◌then◌else◌, take, Bytes, codes, equal, ℕ, ◌*◌, ◌/◌, ◌≤◌, ◌≡◌, refl, ◌≢◌, ◌↔◌, true, false,
  Option, none, some, [], ◌∷◌, ◌++◌, map, arith, In,
}
use rconfig_sim.CmdFiles.Cache.{IsCached, IsFound, lookup-IsCached}
use rconfig_sim.Session.Malformed.Corrupts.{write_malformed-Corrupted, Corrupted}
use rconfig_sim.Session.Delay.Bounds.{Delayed, apply_response_delay-Delayed}
use rconfig_sim.Session.Emit.Cut.{Got, Ends, emit_cut}
use rconfig_sim.Session.Emit.Plain.{delivered, emit_plain}
use rconfig_sim.Session.Sent.{Counted, emit-Counted}
use rconfig_sim.Fault.Parsing.{new_set-Listed}
use rconfig_sim.CmdFiles.{
  command_slug, has_separator, refused, crlf_to_lf, lf_to_crlf, to_crlf, find_names, plain_names,
  folder_names, host_files, find_file, is_listed, read_cached, lookup_name, lookup, Disk, CmdFiles,
}
use rconfig_sim.Response.{no_response, dispatch, Response}
use rconfig_sim.Text.{lower, trim_space, has_prefix, has_suffix, split, join, fields}
use rconfig_sim.Session.{
  write_and_count, observe_cmd, draw, roll_fault, Profile, disconnect_profile, timer, Config, World,
}
use rconfig_sim.Session.Delay.{hang_once, delay_bounds, base_delay, sleep, apply_response_delay}
use rconfig_sim.Session.Emit.{emit}
use rconfig_sim.Session.Malformed.{write_malformed}
use rconfig_sim.Fault.{
  fault_name, one, out_of_range, mark, parse_type, parse_types, new_set, enabled, intn, roll, Fault,
  auth_fail, malformed, finite,
}

new_set-Listed_example :
    ((true ≡ true)
      ↔ In (fault_name malformed) (map trim_space (split (codes "auth_fail, malformed") b',')))
    × (finite false 7 ≡ finite false 7)
    × (out_of_range (finite false 7) ≡ false)
unfolding new_set parse_types parse_type mark out_of_range one trim_space split equal
new_set-Listed_example =
    new_set-Listed (codes "auth_fail, malformed") (finite false 7)
      (record {
        listed = mark malformed (mark auth_fail (λ (t : Fault). false));
        rate = finite false 7;
      })
      malformed refl

-- A disk with one file, for "show clock" on "edge-1".
abbrev a_disk : Disk
a_disk = record {
  read_dir = λ (host : Bytes). some ((codes "show_clock.txt", false) ∷ []);
  read_file = λ (host : Bytes) (name : Bytes). some (codes "12:00\n");
}

abbrev no_files : Option CmdFiles
no_files = some (record { dirs = []; files = [] })

lookup_clock :
    (lookup a_disk (codes "edge-1") (codes "Show  clock") no_files).0 ≡ some (codes "12:00\r\n")
unfolding lookup lookup_name host_files read_cached to_crlf crlf_to_lf lf_to_crlf command_slug
    refused has_separator find_names find_file folder_names plain_names is_listed has_suffix
    has_prefix fields join lower trim_space equal
lookup_clock = refl

lookup-IsCached_example :
    IsFound (lookup a_disk (codes "edge-1") (codes "Show  clock") no_files).0
    × IsCached (lookup a_disk (codes "edge-1") (codes "Show  clock") no_files).1
lookup-IsCached_example = lookup-IsCached a_disk (codes "edge-1") (codes "Show  clock") no_files tt

abbrev gone_disk : Disk
gone_disk = record { read_dir = λ (host : Bytes). none; read_file = λ (host name : Bytes). none }

abbrev a_config : Option Profile → Config
a_config profile = record {
  hostname = codes "edge-1";
  serial_number = codes "FTX1";
  data_bytes = codes "hostname edge-1\nend\n";
  username = codes "admin";
  login_user = codes "admin";
  password = codes "secret";
  enable_password = codes "enable";
  disk = a_disk;
  delay_min_ms = 0;
  delay_max_ms = 20;
  faults = none;
  profile = profile;
  wake = timer;
}

-- The client types the keys of this text.
abbrev a_world : Bytes → World
a_world keys = record {
  channel = record { input = typed keys; room = none; written = [] };
  rng = record { draws = λ (n : ℕ). n; drawn = 5 };
  bytes_sent = 0;
  observed = [];
  faults_injected = [];
  outcome = codes "ok";
  hung = false;
  hangs = [];
  sleeps = [];
  tcp_closed = false;
  cmd_files = none;
}

abbrev a_response : Response
a_response = record no_response { config_output = codes "hostname edge-1\nend\n" }

emit-Counted_example :
    Counted (a_world []) (emit (a_config none) show_running_config a_response (a_world [])).1
emit-Counted_example = emit-Counted (a_config none) show_running_config a_response (a_world [])

emit_plain_example : emit (a_config none) show_running_config a_response (a_world []) ≡ (
  false,
  observe_cmd show_running_config (delivered (codes "hostname edge-1\nend\n\r\n") (a_world [])),
)
unfolding enabled
emit_plain_example =
    emit_plain (a_config none) show_running_config refl refl refl a_response (a_world []) refl

-- A channel that takes the text and three bytes of the stream.
abbrev tight_world : World
tight_world = record (a_world []) { channel = record (a_world []).channel { room = some 3 } }

emit_cut_example :
    (n : ℕ) × (20 * 20 / 100 ≤ n)
    × (n ≤ 20 * 40 / 100)
    × ((emit (a_config (some disconnect_profile)) show_running_config a_response tight_world).0
        ≡ true)
    × Got
        ([] ++ take n (codes "hostname edge-1\nend\n"))
        tight_world
        (emit (a_config (some disconnect_profile)) show_running_config a_response tight_world).1
    × Ends show_running_config [] tight_world
        (emit (a_config (some disconnect_profile)) show_running_config a_response tight_world).1
emit_cut_example =
    emit_cut (a_config (some disconnect_profile)) show_running_config a_response tight_world refl
      (omega arith)

write_malformed-Corrupted_example :
    (out : Bytes) × Corrupted (codes "end\n") out
    × (out ≢ codes "end\n")
    × ((write_malformed (codes "end\n") (a_world [])).0 ≡ false)
    × ((write_malformed (codes "end\n") (a_world [])).1.channel.written ≡ [] ++ out)
write_malformed-Corrupted_example =
    write_malformed-Corrupted (codes "end\n") (a_world []) (omega arith) refl

apply_response_delay-Delayed_example :
    (ms : ℕ) × ((apply_response_delay (a_config none) (a_world [])).sleeps
      ≡ (if ltb 0 ms then ms ∷ [] else []))
    × Delayed (0, 20) ms (a_world []) (apply_response_delay (a_config none) (a_world []))
unfolding delay_bounds
apply_response_delay-Delayed_example = apply_response_delay-Delayed (a_config none) (a_world [])

-- A client that enters the enable mode with the right password, and then leaves twice.
abbrev enable_keys : Bytes
enable_keys = codes "ena\renable\rexit\rexit\r"

serve-total_example :
    ((u : World) × (serve_loop
          (cisco_turn (a_config none))
          26
          (cisco_state (a_config none))
          (a_world enable_keys)
        ≡ some u))
    × ((u : World) × (serve_loop (junos_turn (a_config none)) 26 (codes "> ") (a_world enable_keys)
          ≡ some u))
    × ((u : World) × (serve_loop
            (tl1_turn (a_config none) ciena_tl1 (λ (k n : ℕ). []))
            26
            (new_session [] [] [] [])
            (a_world enable_keys)
          ≡ some u))
serve-total_example =
    serve-total (a_config none) ciena_tl1 (λ (k n : ℕ). []) (cisco_state (a_config none))
      (codes "> ") (new_session [] [] [] []) (a_world enable_keys) 26 (omega arith)

cisco_command-enable_example : (true ≡ true) ↔ (
    ((resolve (codes "ena")).0 ≡ enable)
    × (password_read (apply_response_delay (a_config none) (a_world (codes "enable\r")))
        ≡ line (codes "enable")))
unfolding cisco_command cisco_answer ask_enable check_enable prompted write_and_count write
    read_line read_loop key resolve trim_space fields find_exact matches choose same table
    has_prefix equal lower dispatch apply_response_delay hang_once delay_bounds base_delay draw intn
    roll_fault roll sleep observe_cmd
cisco_command-enable_example =
    cisco_command-enable (a_config none) (cisco_state (a_config none))
      (record (cisco_state (a_config none)) { enable_mode = true }) (codes "ena")
      (a_world (codes "enable\r")) refl refl
