-- ===== src/Generator/Manifest.antt =====
-- internal/configs/generator.go: the rows that `Run` writes.
use rconfig_sim.Text.Decimal.{decimal}
use rconfig_sim.Base.{Bytes, codes, ℕ, ◌+◌, List, [], ◌∷◌}
use rconfig_sim.Generator.Address.{ip_plus_offset}
use rconfig_sim.Generator.{place}
use rconfig_sim.Generator.Models.{Model}

-- The fields of `Config` that reach the manifest.
pub record RunConfig : Type 0 where
  pub ip_base : Bytes
  pub devices_per_ip : ℕ
  pub port_start : ℕ
  pub username : Bytes
  pub password : Bytes
  pub enable_password : Bytes

-- What a worker made of a device: its model, its hostname, the file and its size.
pub record Made : Type 0 where
  pub model : Model
  pub hostname : Bytes
  pub path : Bytes
  pub bytes : ℕ

abbrev pub manifest_header : List Bytes
manifest_header =
    codes "hostname"
    ∷ codes "ip"
    ∷ codes "port"
    ∷ codes "vendor"
    ∷ codes "template"
    ∷ codes "username"
    ∷ codes "password"
    ∷ codes "enable_password"
    ∷ codes "config_file"
    ∷ codes "size_bucket"
    ∷ []

-- The row of the i-th device.
unfoldable pub manifest_row : RunConfig → ℕ → Made → List Bytes
unfolding place
manifest_row cfg i r =
    let (address, port) = place cfg.devices_per_ip cfg.port_start i in
    r.hostname
    ∷ ip_plus_offset cfg.ip_base address
    ∷ decimal port
    ∷ r.model.vendor
    ∷ r.model.template
    ∷ cfg.username
    ∷ cfg.password
    ∷ cfg.enable_password
    ∷ r.path
    ∷ r.model.name
    ∷ []

unfoldable pub manifest_rows : RunConfig → ℕ → List Made → List (List Bytes)
manifest_rows cfg i [] = []
manifest_rows cfg i (r ∷ rs) = manifest_row cfg i r ∷ manifest_rows cfg (i + 1) rs

-- The manifest of a run, as the rows of the CSV file.
unfoldable pub manifest : RunConfig → List Made → List (List Bytes)
unfolding manifest_rows
manifest cfg results = manifest_header ∷ manifest_rows cfg 0 results
