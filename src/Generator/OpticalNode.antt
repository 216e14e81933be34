-- ===== src/Generator/OpticalNode.antt =====
-- internal/configs/optical_tl1.go: the Infinera and Cisco ONS nodes, with the elements behind them.
pub mod Behind
use rconfig_sim.Base.{
  ◌==◌, if◌then◌else◌, Bytes, codes, equal, ℕ, zero, suc, ◌+◌, ◌/◌, ◌%◌, List, [], ◌∷◌, ◌++◌,
}
use rconfig_sim.Text.Decimal.{decimal, decimal_padded}
use rconfig_sim.Generator.Address.{ip_plus_offset}
use rconfig_sim.Generator.Random.{Draw, ◌>>=◌, give, device_rand, pick, serial_for}
use rconfig_sim.Generator.Shelf.{city_syllables, ciena_card_serial, in_service, FleetConfig}
use rconfig_sim.Generator.Gateway.{is_used}
use rconfig_sim.Fault.{intn, Rng}
use rconfig_sim.Text.{to_upper, fields}

-- `OpticalSlot` and `OpticalNodeData`.
pub record OpticalSlot : Type 0 where
  pub slot : ℕ
  pub card_type : Bytes
  pub serial : Bytes
  pub state : Bytes

pub record OpticalNode : Type 0 where
  pub sid : Bytes
  pub node_ip : Bytes
  pub serial : Bytes
  pub sw_version : Bytes
  pub slots : List OpticalSlot

-- `InfineraNodeData` and `CiscoONSGNEData`.
pub record OpticalGateway : Type 0 where
  pub local : OpticalNode
  pub elements : List OpticalNode

abbrev pub optical_cards : List Bytes
optical_cards = fields (codes "OTR4 XT500 AOFX OCG TAM TOM BMM MXP TCC2P OSCM")

-- `opticalSwVersion`.
unfoldable pub optical_sw_version : Bytes → Bytes
optical_sw_version prefix =
    if equal prefix (codes "ONS") then codes "09.10-005E-16.28" else codes "R21.3"

-- `infineraTID`.
unfoldable pub infinera_tid : Draw Bytes
infinera_tid = do
  city ← pick city_syllables
  letter ← intn 26
  digit ← intn 10
  give (to_upper city ++ (codes "TN" ++ ((b'A' + letter) ∷ (decimal digit ++ codes "Y"))))

-- `ciscoONSTID`.
unfoldable pub cisco_ons_tid : Draw Bytes
cisco_ons_tid = do k ← intn 1000; give (codes "TID-" ++ decimal_padded 3 k)

-- The slots from the s-th on.
unfoldable pub build_cards : ℕ → ℕ → Draw (List OpticalSlot)
build_cards s zero = give []
build_cards s (suc left) = do
  card ← pick optical_cards
  serial ← ciena_card_serial s
  fate ← intn 20
  cards ← build_cards (s + 1) left
  give (
      record {
        slot = s;
        card_type = card;
        serial = serial;
        state = if fate == 0 then codes "OOS-AU" else in_service;
      }
      ∷ cards)

-- `buildOpticalNode`.
unfoldable pub build_optical_node : (Bytes → Bytes) → FleetConfig → ℕ → Bytes → ℕ → Draw OpticalNode
unfolding build_cards optical_sw_version
build_optical_node sha256 cfg index prefix slots = do
  city ← pick city_syllables
  let sid = prefix ++ (b'-' ∷ (to_upper city ++ (b'-' ∷ decimal_padded 4 (1000 + index % 9000))))
  n ← intn (slots / 2 + 1)
  cards ← build_cards 1 (slots / 2 + n)
  give (record {
    sid = sid;
    node_ip = ip_plus_offset cfg.ip_base (index / cfg.devices_per_ip);
    serial = serial_for sha256 sid;
    sw_version = optical_sw_version prefix;
    slots = cards;
  })

module _ (sha256 : Bytes → Bytes) where
  -- The loops for the elements: `left` rounds are to come, and a name that is used is skipped.
  unfoldable pub build_elements :
      Draw Bytes → Draw OpticalNode → ℕ → List Bytes → Draw (List OpticalNode)
  unfolding is_used
  build_elements draw_tid draw_node zero used = give []
  build_elements draw_tid draw_node (suc left) used = do
    tid ← draw_tid
    let skipped = build_elements draw_tid draw_node left used
    let kept = (do
      r ← draw_node
      rs ← build_elements draw_tid draw_node left (tid ∷ used)
      give (record r { sid = tid; serial = serial_for sha256 tid } ∷ rs))
    if is_used tid used then skipped else kept

  -- A node of a vendor, with `least` elements and up to `more - 1` more.
  unfoldable pub build_gateway :
      (ℕ → Rng) → FleetConfig → ℕ → Bytes → ℕ → Draw Bytes → ℕ → ℕ → OpticalGateway
  unfolding build_elements
  build_gateway new_source cfg index prefix slots draw_tid least more =
      let draw_node = build_optical_node sha256 cfg index prefix slots in
      let (node, r) = draw_node (device_rand new_source cfg.seed index) in
      let (n, s) = intn more r in
      let (elements, t) = build_elements draw_tid draw_node (least + n) [] s in
      record { local = node; elements = elements }

  -- `buildInfineraNode`.
  unfoldable pub build_infinera_node : (ℕ → Rng) → FleetConfig → ℕ → OpticalGateway
  unfolding build_gateway infinera_tid
  build_infinera_node new_source cfg index =
      build_gateway new_source cfg index (codes "INF") 8 infinera_tid 12 19

  -- `buildCiscoONSGNE`.
  unfoldable pub build_cisco_ons_gne : (ℕ → Rng) → FleetConfig → ℕ → OpticalGateway
  unfolding build_gateway cisco_ons_tid
  build_cisco_ons_gne new_source cfg index =
      build_gateway new_source cfg index (codes "ONS") 12 cisco_ons_tid 3 6
