-- ===== src/Loader/Mapping.antt =====
-- internal/configs/loader.go: `mmapRO`, `UnloadAll` and the mapping loop of `LoadForListener`. `live`
-- counts the mappings that the process holds; a disk gives the contents of a file, or an error.
pub mod Fields
pub mod Leaks
use rconfig_sim.Base.Result.{ok, err}
use rconfig_sim.Base.{length, Bytes, ℕ, ◌+◌, ◌-◌, Option, none, some, List, [], ◌∷◌, ◌++◌}
use rconfig_sim.Loader.{Loaded, select_devices, Device, unmapped, Listener}

-- `mmapRO`, and the two assignments behind it: an empty file is not mapped.
unfoldable pub map_one : (Bytes → Option Bytes) → Device → Option Device
map_one disk d = elim (disk d.config_path) [
  | none ↦ none
  | some [] ↦ some (record d { contents = none; size = 0 })
  | some (b ∷ bs) ↦ some (record d { contents = some (b ∷ bs); size = length (b ∷ bs) })
]

abbrev pub holds : Option Bytes → ℕ
holds none = 0
holds (some b) = 1

-- `UnloadAll`.
unfoldable pub unload_all : List Device → ℕ → List Device × ℕ
unload_all [] live = ([], live)
unload_all (d ∷ ds) live =
    let (rest, left) = unload_all ds (live - holds d.contents) in
    (record d { contents = none } ∷ rest, left)

-- The mapping loop, with the devices that are done.
unfoldable pub map_all :
    (Bytes → Option Bytes) → List Device → List Device → ℕ → Loaded (List Device) × ℕ
unfolding unload_all map_one
map_all disk done [] live = (ok done, live)
map_all disk done (d ∷ ds) live = elim (map_one disk d) [
  | none ↦ (err unmapped, (unload_all (done ++ (d ∷ ds)) live).1)
  | some e ↦ map_all disk (done ++ (e ∷ [])) ds (live + holds e.contents)
]

-- `LoadForListener`.
unfoldable pub load_for_listener :
    (Bytes → Bytes)
    → (Bytes → Option Bytes)
    → Listener
    → Option (List (List Bytes))
    → ℕ
    → Loaded (List Device) × ℕ
unfolding map_all
load_for_listener serial_for disk l manifest live = elim (select_devices serial_for l manifest) [
  | err e ↦ (err e, live)
  | ok ds ↦ map_all disk [] ds live
]
