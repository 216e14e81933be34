-- ===== src/Tests/Loading.antt =====
-- A manifest written and loaded, and servers that start.
use rconfig_sim.Base.{
  ◌==◌, if◌then◌else◌, take, drop, All, Bytes, codes, equal, ℕ, ◌*◌, ◌≡◌, refl, false, Option, none,
  some, List, [], ◌∷◌, ◌++◌, arith,
}
use rconfig_sim.Profiles.Assign.{assign_from, assign}
use rconfig_sim.Text.Decimal.{decimal, value_of, atoi}
use rconfig_sim.Server.Listeners.Closed.{Opened, start-Opened}
use rconfig_sim.Server.Start.Ready.{IsReady, new_server-IsReady}
use rconfig_sim.Server.Start.Pinned.{Pinned, resolve_profiles-Pinned}
use rconfig_sim.Server.Start.{
  known_mode, resolve_from, resolve_profiles, load_devices, new_server, Outside, StartConfig,
}
use rconfig_sim.Server.Listeners.{bind_ports, start, no_sockets}
use rconfig_sim.Loader.Mapping.Leaks.{IsBalanced, load_for_listener-IsBalanced}
use rconfig_sim.Loader.Own.{devices_from, select_devices-manifest}
use rconfig_sim.Loader.Mapping.{map_one, unload_all, map_all, load_for_listener}
use rconfig_sim.Generator.{place}
use rconfig_sim.Profiles.{cut_or, parse_profile}
use rconfig_sim.Text.{trim_left, trim_right, trim_space, split, cut}
use rconfig_sim.Base.Result.{ok, err}
use rconfig_sim.Base.Int.{pos}
use rconfig_sim.Generator.Address.{dotted, octet, parse_ipv4, ip_plus_offset}
use rconfig_sim.Generator.Manifest.{manifest_row, manifest_rows, manifest, RunConfig, Made}
use rconfig_sim.Generator.Models.{ciena_model}
use rconfig_sim.Loader.{
  same_width, read_all, in_range, device_of, read_row, read_rows, select_devices, Device, unmapped,
  Listener,
}

abbrev a_run : RunConfig
a_run = record {
  ip_base = codes "10.0.0.255";
  devices_per_ip = 2;
  port_start = 10000;
  username = codes "admin";
  password = codes "pw";
  enable_password = codes "en";
}

abbrev made_one : Bytes → Bytes → Made
made_one hostname path = record { model = ciena_model; hostname = hostname; path = path; bytes = 3 }

abbrev made_three : List Made
made_three =
    made_one (codes "a") (codes "/a")
    ∷ made_one (codes "b") (codes "/b")
    ∷ made_one (codes "c") (codes "/c")
    ∷ []

abbrev some_serial : Bytes → Bytes
some_serial hostname = codes "S-" ++ hostname

abbrev second_address : Listener
second_address = record { ip = codes "10.0.1.0"; port_start = 10000; port_count = 50 }

next_address : ip_plus_offset (codes "10.0.0.255") 1 ≡ codes "10.0.1.0"
unfolding ip_plus_offset decimal value_of split
next_address = refl

base_address : parse_ipv4 (codes "10.0.0.255") ≡ some 167772415
unfolding parse_ipv4 value_of split
base_address = refl

select_devices-manifest_example :
    select_devices some_serial second_address (some (manifest a_run made_three))
    ≡ ok (take 2 (drop (1 * 2) (devices_from some_serial a_run 0 made_three)))
select_devices-manifest_example =
    select_devices-manifest some_serial a_run second_address 167772415 1 made_three (omega arith)
      base_address (omega arith) next_address refl (omega arith) (omega arith) (omega arith)

-- The third file is missing.
abbrev two_files : Bytes → Option Bytes
two_files path =
    if equal path (codes "/a")
    then some (codes "aaa")
    else if equal path (codes "/b")
    then some []
    else none

abbrev first_address : Listener
first_address = record { ip = codes "10.0.0.255"; port_start = 10000; port_count = 50 }

load_for_listener-IsBalanced_example :
    IsBalanced two_files 7
      (load_for_listener some_serial two_files second_address (some (manifest a_run made_three)) 7)
load_for_listener-IsBalanced_example =
    load_for_listener-IsBalanced some_serial two_files second_address
      (some (manifest a_run made_three)) 7

missing_file :
    load_for_listener some_serial two_files second_address (some (manifest a_run made_three)) 7
    ≡ (err unmapped, 7)
unfolding load_for_listener select_devices read_all same_width read_rows read_row in_range device_of
    map_all map_one unload_all manifest manifest_rows manifest_row place ip_plus_offset parse_ipv4
    octet dotted decimal atoi value_of split equal
missing_file = refl

abbrev the_outside : Outside
the_outside = record {
  parse_duration = λ (s : Bytes). some (pos 5);
  parse_float = λ (s : Bytes). none;
  sha256 = λ (s : Bytes). s;
  disk = two_files;
}

abbrev a_start : StartConfig
a_start = record {
  max_concurrent_sessions = 4;
  listener = first_address;
  ssh_auth_mode = codes "driver";
  host_key = some (codes "key");
  manifest = some (manifest a_run made_three);
  device_profiles = [];
  profile_seed = 1;
}

new_server-IsReady_example : IsReady the_outside a_start 3 (new_server the_outside a_start 3)
new_server-IsReady_example = new_server-IsReady the_outside a_start 3

-- Two files are asked for, of which one is empty.
mapped_files : (new_server the_outside a_start 3).1 ≡ 4
unfolding new_server load_devices known_mode load_for_listener select_devices read_all same_width
    read_rows read_row in_range device_of map_all map_one manifest manifest_rows manifest_row place
    ip_plus_offset parse_ipv4 octet dotted decimal atoi value_of split equal
mapped_files = refl

abbrev two_devices : List Device
two_devices = devices_from some_serial a_run 0 (take 2 made_three)

resolve_profiles-Pinned_example : All (Pinned the_outside [] 1 []) two_devices
unfolding resolve_profiles resolve_from parse_profile trim_space trim_left trim_right cut_or cut
    equal assign assign_from ip_plus_offset
resolve_profiles-Pinned_example =
    resolve_profiles-Pinned the_outside [] 1 two_devices [] ((refl, tt), (tt, tt)) refl

start-Opened_example :
    Opened
      (some false)
      (10000 ∷ 10001 ∷ [])
      (start (λ (p : ℕ). p == 10000) (some false) (10000 ∷ 10001 ∷ []) no_sockets)
start-Opened_example = start-Opened (λ (p : ℕ). p == 10000) (some false) (10000 ∷ 10001 ∷ [])

second_port_taken : (start (λ (p : ℕ). p == 10000) none (10000 ∷ 10001 ∷ []) no_sockets).0 ≡ false
unfolding start bind_ports
second_port_taken = refl
