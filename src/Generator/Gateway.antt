-- ===== src/Generator/Gateway.antt =====
-- internal/configs/ciena.go: a Ciena gateway with the remote elements behind it.
use rconfig_sim.Base.{
  ltb, ◌==◌, if◌then◌else◌, length, take, Bytes, codes, equal, ℕ, zero, suc, ◌+◌, ◌-◌, ◌*◌, ◌/◌,
  ◌%◌, ◌^◌, Bool, false, ◌||◌, List, [], ◌∷◌, ◌++◌, map,
}
use rconfig_sim.Text.Decimal.{decimal_padded}
use rconfig_sim.Generator.Address.{ip_plus_offset}
use rconfig_sim.Text.{to_upper}
pub mod Linked
pub mod Elements
use rconfig_sim.Generator.Random.{Draw, ◌>>=◌, give, device_rand, pick, serial_for}
use rconfig_sim.Generator.Shelf.{city_syllables, build_ciena_shelf, FleetConfig, CienaShelf}
use rconfig_sim.Fault.{intn, Rng}

-- `CienaGNEData`.
pub record CienaGateway : Type 0 where
  pub shelf : CienaShelf
  pub rnes : List CienaShelf

-- `linkTID`.
unfoldable pub link_tid : ℕ → Bytes
link_tid n = codes "RNE-LINK" ++ decimal_padded 4 (n % 10000)

-- `linkRnes`.
unfoldable pub link_rnes : FleetConfig → ℕ → List Bytes
unfolding link_tid
link_rnes cfg index =
    if cfg.rne_dual_home_pct == 0
    then []
    else (if ltb 0 index then link_tid (index - 1) ∷ [] else [])
      ++ (if ltb (index + 1) cfg.count then link_tid index ∷ [] else [])

-- `rneTID`.
unfoldable pub rne_tid : FleetConfig → Bytes → ℕ → Bool → Bytes
rne_tid cfg city index shared =
    if shared || cfg.rne_dual_home_pct == 0
    then codes "RNE-" ++ city
    else codes "RNE-" ++ (city ++ decimal_padded 4 (index % 10000))

-- A big-endian number.
abbrev pub big_endian : ℕ → Bytes → ℕ
big_endian n [] = n
big_endian n (b ∷ s) = big_endian (n * 256 + b) s

unfoldable pub is_used : Bytes → List Bytes → Bool
is_used tid [] = false
is_used tid (t ∷ ts) = equal t tid || is_used tid ts

-- Whether the next element is shared: no draw is taken without dual-homing.
unfoldable pub draw_shared : FleetConfig → Draw Bool
draw_shared cfg r =
    let (k, later) = intn 100 r in
    if cfg.rne_dual_home_pct == 0 then (false, r) else (ltb k cfg.rne_dual_home_pct, later)

module _ (sha256 : Bytes → Bytes) (new_source : ℕ → Rng) where
  -- `tidSeedIndex`.
  unfoldable pub tid_seed_index : Bytes → ℕ
  tid_seed_index tid = big_endian 0 (take 4 (sha256 tid)) % 2 ^ 31

  -- `buildSharedRneShelf`.
  unfoldable pub build_shared_rne_shelf : FleetConfig → Bytes → CienaShelf
  unfolding tid_seed_index
  build_shared_rne_shelf cfg tid =
      let seed_index = tid_seed_index tid in
      let (r, later) =
        build_ciena_shelf sha256 cfg seed_index (device_rand new_source cfg.seed seed_index) in
      record r {
        sid = tid;
        shelf_serial = serial_for sha256 tid;
        node_ip = ip_plus_offset cfg.ip_base (seed_index % 256);
      }

  unfoldable pub build_private_shelf : FleetConfig → ℕ → Bytes → Draw CienaShelf
  build_private_shelf cfg index tid = do
    r ← build_ciena_shelf sha256 cfg index
    give (record r {
      sid = tid;
      shelf_serial = serial_for sha256 tid;
      node_ip = ip_plus_offset cfg.ip_base (index / cfg.devices_per_ip);
    })

  unfoldable pub build_rne : FleetConfig → ℕ → Bytes → Bool → Draw CienaShelf
  unfolding build_shared_rne_shelf build_private_shelf
  build_rne cfg index tid shared =
      if shared then give (build_shared_rne_shelf cfg tid) else build_private_shelf cfg index tid

  -- The loop for the elements: `left` rounds are to come, and a name that is used is skipped.
  unfoldable pub build_rnes : FleetConfig → ℕ → ℕ → List Bytes → Draw (List CienaShelf)
  unfolding is_used rne_tid draw_shared build_rne
  build_rnes cfg index zero used = give []
  build_rnes cfg index (suc left) used = do
    city ← pick city_syllables
    shared ← draw_shared cfg
    let tid = rne_tid cfg (to_upper city) index shared
    let skipped = build_rnes cfg index left used
    let kept = (do
      r ← build_rne cfg index tid shared
      rs ← build_rnes cfg index left (tid ∷ used)
      give (r ∷ rs))
    if is_used tid used then skipped else kept

  -- `buildCienaGNE`.
  unfoldable pub build_ciena_gne : FleetConfig → ℕ → CienaGateway
  unfolding build_rnes link_rnes build_shared_rne_shelf
  build_ciena_gne cfg index =
      let (gne, r) = build_ciena_shelf sha256 cfg index (device_rand new_source cfg.seed index) in
      let (n, s) = intn 4 r in
      let links = link_rnes cfg index in
      let (rnes, t) = build_rnes cfg index (2 + n - length links) links s in
      record {
        shelf = gne;
        rnes = map (λ (tid : Bytes). build_shared_rne_shelf cfg tid) links ++ rnes;
      }
