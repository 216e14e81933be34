-- ===== src/Generator/Shelf.antt =====
-- internal/configs/ciena.go: the inventory of a Ciena shelf, as it is drawn.
use rconfig_sim.Base.{
  leb, ◌==◌, if◌then◌else◌, Bytes, codes, ℕ, zero, suc, ◌+◌, ◌*◌, ◌/◌, ◌%◌, Bool, true, false, List,
  [], ◌∷◌, ◌++◌,
}
use rconfig_sim.Generator.Address.{ip_plus_offset}
use rconfig_sim.Generator.Random.{Draw, ◌>>=◌, give, pick, letters, serial_for}
use rconfig_sim.Fault.{intn}
use rconfig_sim.Text.{to_upper, fields}
use rconfig_sim.Text.Decimal.{decimal, decimal_padded}

-- The fields of `Config` that the builders read; the seed is a 64-bit word.
pub record FleetConfig : Type 0 where
  pub count : ℕ
  pub ip_base : Bytes
  pub devices_per_ip : ℕ
  pub seed : ℕ
  pub rne_dual_home_pct : ℕ

-- `CienaPort`, `CienaSlot` and `CienaEqptData`.
pub record CienaPort : Type 0 where
  pub port : ℕ
  pub equipped : Bool
  pub optic_type : Bytes
  pub wavelength : Bytes
  pub serial : Bytes
  pub state : Bytes

pub record CienaSlot : Type 0 where
  pub slot : ℕ
  pub equipped : Bool
  pub card_type : Bytes
  pub clei : Bytes
  pub serial : Bytes
  pub part_num : Bytes
  pub state : Bytes
  pub ports : List CienaPort

pub record CienaShelf : Type 0 where
  pub sid : Bytes
  pub node_ip : Bytes
  pub shelf_serial : Bytes
  pub sw_version : Bytes
  pub slots : List CienaSlot

abbrev pub city_syllables : List Bytes
city_syllables = fields (
    codes
      "lax jfk sfo ord dfw atl sea mia bos iad sjc phx den pdx mci stl iah las slc mem cle mke msp dtw cmh cvg pit bwi dca phl rdu clt jax tpa bna oma buf bdl abq tus")

abbrev pub ciena_cards : List Bytes
ciena_cards = fields (codes "WL3N OTR2 EDFA 10X10G OSC SP2 XCIF")

abbrev pub ciena_optics : List Bytes
ciena_optics = fields (codes "SFP+ QSFP28 CFP2")

-- `cienaCLEI`.
unfoldable pub ciena_clei : Draw Bytes
ciena_clei = do
  s ← letters (codes "ABCDEFGHIJKLMNOPQRSTUVWXYZ0123456789") 6
  give (codes "WMOT" ++ s)

-- `cienaCardSerial`.
unfoldable pub ciena_card_serial : ℕ → Draw Bytes
ciena_card_serial slot = do
  s ← letters (codes "ABCDEFGHJKLMNPQRSTUVWXYZ0123456789") 7
  give (codes "LBC" ++ (s ++ decimal_padded 2 (slot % 100)))

-- `cienaLambda`: 1528 and k twentieths, in hundredths.
unfoldable pub ciena_lambda : Draw Bytes
ciena_lambda = do
  k ← intn 400
  let nm = 152800 + 5 * k
  give (decimal (nm / 100) ++ (b'.' ∷ decimal_padded 2 (nm % 100)))

abbrev pub in_service : Bytes
in_service = codes "IS-NR"

unfoldable pub bare_port : ℕ → Draw CienaPort
bare_port p = give (record {
  port = p;
  equipped = false;
  optic_type = [];
  wavelength = [];
  serial = [];
  state = [];
})

unfoldable pub equipped_port : ℕ → ℕ → Draw CienaPort
equipped_port s p = do
  optic ← pick ciena_optics
  wavelength ← ciena_lambda
  serial ← ciena_card_serial (s * 100 + p)
  give (record {
    port = p;
    equipped = true;
    optic_type = optic;
    wavelength = wavelength;
    serial = serial;
    state = in_service;
  })

-- The ports of a slot, from the p-th on: `left` are still to come.
unfoldable pub build_ports : ℕ → ℕ → ℕ → Draw (List CienaPort)
build_ports s p zero = give []
build_ports s p (suc left) = do
  k ← intn 4
  port ← (if k == 0 then bare_port p else equipped_port s p)
  ports ← build_ports s (p + 1) left
  give (port ∷ ports)

unfoldable pub bare_slot : ℕ → Draw CienaSlot
bare_slot s = give (record {
  slot = s;
  equipped = false;
  card_type = [];
  clei = [];
  serial = [];
  part_num = [];
  state = [];
  ports = [];
})

unfoldable pub equipped_slot : ℕ → Draw CienaSlot
equipped_slot s = do
  card ← pick ciena_cards
  clei ← ciena_clei
  serial ← ciena_card_serial s
  part ← intn 99
  letter ← intn 26
  fate ← intn 20
  n ← intn 7
  ports ← build_ports s 1 (2 + n)
  give (record {
    slot = s;
    equipped = true;
    card_type = card;
    clei = clei;
    serial = serial;
    part_num = codes "NTK" ++ (decimal_padded 3 (500 + part) ++ ((b'A' + letter) ∷ []));
    state = if fate == 0 then codes "OOS-AU" else in_service;
    ports = ports;
  })

-- The slots from the s-th on, of which the first `equipped` hold a card.
unfoldable pub build_slots : ℕ → ℕ → ℕ → Draw (List CienaSlot)
build_slots equipped s zero = give []
build_slots equipped s (suc left) = do
  slot ← (if leb s equipped then equipped_slot s else bare_slot s)
  slots ← build_slots equipped (s + 1) left
  give (slot ∷ slots)

-- `buildCienaShelf`.
unfoldable pub build_ciena_shelf : (Bytes → Bytes) → FleetConfig → ℕ → Draw CienaShelf
build_ciena_shelf sha256 cfg index = do
  city ← pick city_syllables
  let sid = codes "CIENA-" ++ (to_upper city ++ (b'-' ∷ decimal_padded 4 (1000 + index % 9000)))
  n ← intn 4
  slots ← build_slots (4 + n) 1 7
  give (record {
    sid = sid;
    node_ip = ip_plus_offset cfg.ip_base (index / cfg.devices_per_ip);
    shelf_serial = serial_for sha256 sid;
    sw_version = codes "12.4";
    slots = slots;
  })
