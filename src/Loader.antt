-- ===== src/Loader.antt =====
-- internal/configs/loader.go. A manifest is the list of the rows of its CSV file, `none` where it
-- cannot be read.
pub mod Mapping
pub mod Own
use rconfig_sim.Base.Result.{Result, ok, err}
use rconfig_sim.Base.{
  ltb, leb, ◌==◌, if◌then◌else◌, length, get_or, Bytes, equal, ℕ, ◌+◌, Bool, true, ◌&&◌, Option,
  none, some, List, [], ◌∷◌,
}
use rconfig_sim.Base.Int.{pos, negsuc}
use rconfig_sim.Text.Decimal.{atoi}

-- `Device`; `contents` is what `Data` maps, `none` where nothing is mapped.
pub record Device : Type 0 where
  pub hostname : Bytes
  pub ip : Bytes
  pub port : ℕ
  pub vendor : Bytes
  pub driver : Bytes
  pub size_bucket : Bytes
  pub config_path : Bytes
  pub contents : Option Bytes
  pub size : ℕ
  pub serial_number : Bytes
  pub profile : Bytes

pub data LoadError : Type 0 where
  unreadable no_rows ragged short_row bad_port unmapped : LoadError

abbrev pub Loaded {ℓ} : Type ℓ → Type ℓ
Loaded A = Result LoadError A

-- `listenIP`, `portStart`, `portCount`.
pub record Listener : Type 0 where
  pub ip : Bytes
  pub port_start : ℕ
  pub port_count : ℕ

-- `csv.Reader.ReadAll`: every row has as many columns as the first.
unfoldable pub same_width : ℕ → List (List Bytes) → Bool
same_width n [] = true
same_width n (r ∷ rs) = length r == n && same_width n rs

unfoldable pub read_all : List (List Bytes) → Loaded (List (List Bytes))
unfolding same_width
read_all [] = ok []
read_all (r ∷ rs) = if same_width (length r) rs then ok (r ∷ rs) else err ragged

unfoldable pub in_range : Listener → ℕ → Bool
in_range l p = leb l.port_start p && ltb p (l.port_start + l.port_count)

abbrev pub prepend : Loaded (Option Device) → Loaded (List Device) → Loaded (List Device)
prepend (err e) ds = err e
prepend (ok none) ds = ds
prepend (ok (some d)) (ok ds) = ok (d ∷ ds)
prepend (ok (some d)) (err e) = err e

module _ (serial_for : Bytes → Bytes) where
  unfoldable pub device_of : List Bytes → ℕ → Device
  device_of row port = record {
    hostname = get_or row 0 [];
    ip = get_or row 1 [];
    port = port;
    vendor = get_or row 3 [];
    driver = get_or row 4 [];
    size_bucket = get_or row 9 [];
    config_path = get_or row 8 [];
    contents = none;
    size = 0;
    serial_number = serial_for (get_or row 0 []);
    profile = get_or row 10 [];
  }

  -- The row of another listener gives no device. A port below zero is in no range.
  unfoldable pub read_row : Listener → List Bytes → Loaded (Option Device)
  unfolding in_range device_of
  read_row l row =
      if ltb (length row) 10
      then err short_row
      else if equal (get_or row 1 []) l.ip
      then elim (atoi (get_or row 2 [])) [
        | none ↦ err bad_port
        | some (negsuc p) ↦ ok none
        | some (pos p) ↦ if in_range l p then ok (some (device_of row p)) else ok none
      ]
      else ok none

  unfoldable pub read_rows : Listener → List (List Bytes) → Loaded (List Device)
  read_rows l [] = ok []
  read_rows l (row ∷ rows) = prepend (read_row l row) (read_rows l rows)

  -- The part of `LoadForListener` before the files are mapped.
  unfoldable pub select_devices : Listener → Option (List (List Bytes)) → Loaded (List Device)
  unfolding read_rows
  select_devices l none = err unreadable
  select_devices l (some rows) = elim (read_all rows) [
    | err e ↦ err e
    | ok [] ↦ err no_rows
    | ok (header ∷ body) ↦ read_rows l body
  ]
