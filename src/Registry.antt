-- ===== src/Registry.antt =====
-- internal/sshsrv/driver.go: the registry of drivers, and `requireSSHAuth` of server.go.
pub mod Known
pub mod Labels
use rconfig_sim.Base.{
  ltb, ◌==◌, if◌then◌else◌, Bytes, codes, equal, Bool, true, false, ◌&&◌, ◌||◌, Option, none, some,
  List, [], ◌∷◌,
}
use rconfig_sim.Command.{Command}
use rconfig_sim.Serve.Cisco.{cisco_commands}
use rconfig_sim.Serve.Junos.{junos_commands}
use rconfig_sim.Drivers.Ciena.{ciena_commands}
use rconfig_sim.Drivers.Infinera.{infinera_commands}
use rconfig_sim.Drivers.CiscoOns.{cisco_ons_commands}

-- The drivers that register themselves.
pub data Driver : Type 0 where
  cisco_ios junos ciena_tl1 infinera_tl1 cisco_ons_tl1 : Driver

abbrev pub all_drivers : List Driver
all_drivers = cisco_ios ∷ junos ∷ ciena_tl1 ∷ infinera_tl1 ∷ cisco_ons_tl1 ∷ []

-- `Name`.
abbrev pub driver_name : Driver → Bytes
driver_name cisco_ios = codes "cisco_ios"
driver_name junos = codes "junos"
driver_name ciena_tl1 = codes "ciena_tl1"
driver_name infinera_tl1 = codes "infinera_tl1"
driver_name cisco_ons_tl1 = codes "cisco_ons_tl1"

-- `RequiresSSHAuth`.
abbrev pub requires_ssh_auth : Driver → Bool
requires_ssh_auth cisco_ios = true
requires_ssh_auth junos = true
requires_ssh_auth _ = false

-- `Commands`.
abbrev pub driver_commands : Driver → List Command
driver_commands cisco_ios = cisco_commands
driver_commands junos = junos_commands
driver_commands ciena_tl1 = ciena_commands
driver_commands infinera_tl1 = infinera_commands
driver_commands cisco_ons_tl1 = cisco_ons_commands

-- `driverRegistry[name]`.
unfoldable pub registered : Bytes → List Driver → Option Driver
registered name [] = none
registered name (d ∷ ds) =
    let rest = registered name ds in if equal (driver_name d) name then some d else rest

-- `driverFor`.
unfoldable pub driver_for : Bytes → Driver
driver_for template = elim (registered template all_drivers) [ some d ↦ d | none ↦ cisco_ios ]

unfoldable pub is_seen : Bytes → List Bytes → Bool
is_seen name [] = false
is_seen name (n ∷ names) = equal n name || is_seen name names

-- The loop of `unknownDrivers` over the devices' ids.
unfoldable pub unknown_ids : List Bytes → List Bytes → List Bytes
unknown_ids seen [] = []
unknown_ids seen (id ∷ ids) =
    let skipped = unknown_ids seen ids in
    let rest = unknown_ids (id ∷ seen) ids in
    if equal id [] || is_seen id seen
    then skipped
    else elim (registered id all_drivers) [ some d ↦ rest | none ↦ id ∷ rest ]

-- The order of Go's strings.
unfoldable pub bytes_leb : Bytes → Bytes → Bool
bytes_leb [] t = true
bytes_leb (c ∷ s) [] = false
bytes_leb (c ∷ s) (d ∷ t) = ltb c d || (c == d && bytes_leb s t)

unfoldable pub insert : Bytes → List Bytes → List Bytes
insert s [] = s ∷ []
insert s (t ∷ ts) = let rest = insert s ts in if bytes_leb s t then s ∷ t ∷ ts else t ∷ rest

-- `sort.Strings`.
unfoldable pub sort : List Bytes → List Bytes
unfolding insert
sort [] = []
sort (s ∷ ss) = insert s (sort ss)

-- `unknownDrivers`, on the driver ids of the devices.
unfoldable pub unknown_drivers : List Bytes → List Bytes
unfolding unknown_ids sort
unknown_drivers ids = sort (unknown_ids [] ids)

-- `SSHAuthMode`.
unfoldable pub require_ssh_auth : Bytes → Bytes → Bool
require_ssh_auth mode driver =
    if equal mode (codes "none")
    then false
    else if equal mode (codes "driver")
    then requires_ssh_auth (driver_for driver)
    else true
