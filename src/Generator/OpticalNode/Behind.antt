-- ===== src/Generator/OpticalNode/Behind.antt =====
-- The elements behind a node have different names.
use rconfig_sim.Base.{
  Bool-cases, length, Bytes, codes, ℕ, zero, suc, ◌+◌, ◌≤◌, inl, inr, List, [], ◌∷◌, arith,
}
use rconfig_sim.Generator.Gateway.{is_used}
use rconfig_sim.Generator.Gateway.Elements.{AllDistinct, Unused, Unused-split}
use rconfig_sim.Generator.Random.{Draw, device_rand}
use rconfig_sim.Generator.Shelf.{FleetConfig}
use rconfig_sim.Generator.OpticalNode.{
  infinera_tid, cisco_ons_tid, build_optical_node, build_elements, build_gateway,
  build_infinera_node, build_cisco_ons_gne, OpticalNode,
}
use rconfig_sim.Fault.{intn, intn_lt, Rng}

abbrev pub sids : List OpticalNode → List Bytes
sids [] = []
sids (r ∷ rs) = r.sid ∷ sids rs

module _ (sha256 : Bytes → Bytes) (draw_tid : Draw Bytes) (draw_node : Draw OpticalNode) where
  build_elements-AllDistinct :
      (left : ℕ) (used : List Bytes) (r : Rng)
      → AllDistinct (sids (build_elements sha256 draw_tid draw_node left used r).0)
        × Unused used (sids (build_elements sha256 draw_tid draw_node left used r).0)
        × (length (build_elements sha256 draw_tid draw_node left used r).0 ≤ left)
  unfolding build_elements
  build_elements-AllDistinct zero used r = (tt, tt, omega arith)
  build_elements-AllDistinct (suc left) used r =
      let (tid, r1) = draw_tid r in
      elim (Bool-cases (is_used tid used)) [
        | inl t ↦
            let (a, b, c) = build_elements-AllDistinct left used r1 in
            rw (t, build_elements) (a, b, omega arith)
        | inr t ↦
            let (x, r2) = draw_node r1 in
            let (a, b, c) = build_elements-AllDistinct left (tid ∷ used) r2 in
            let rs = (build_elements sha256 draw_tid draw_node left (tid ∷ used) r2).0 in
            let (p, q) = Unused-split tid used (sids rs) b in
            rw (t, build_elements) ((p, a), (t, q), omega arith)
      ]

-- Whatever is drawn, the remote nodes of an Infinera node have different names, at most 30; those of a
-- Cisco ONS gateway have different names too, at most 8.
pub build_gateway-AllDistinct :
    (sha256 : Bytes → Bytes) (new_source : ℕ → Rng) (cfg : FleetConfig) (index : ℕ)
    → AllDistinct (sids (build_infinera_node sha256 new_source cfg index).elements)
      × (length (build_infinera_node sha256 new_source cfg index).elements ≤ 30)
      × AllDistinct (sids (build_cisco_ons_gne sha256 new_source cfg index).elements)
      × (length (build_cisco_ons_gne sha256 new_source cfg index).elements ≤ 8)
unfolding build_infinera_node build_cisco_ons_gne build_gateway
build_gateway-AllDistinct sha256 new_source cfg index =
    let inf = build_optical_node sha256 cfg index (codes "INF") 8 in
    let ons = build_optical_node sha256 cfg index (codes "ONS") 12 in
    let start = device_rand new_source cfg.seed index in
    let (m, s) = intn 19 (inf start).1 in
    let ml = intn_lt 19 (inf start).1 (omega arith) in
    let (n, t) = intn 6 (ons start).1 in
    let nl = intn_lt 6 (ons start).1 (omega arith) in
    let (a, b, c) = build_elements-AllDistinct sha256 infinera_tid inf (12 + m) [] s in
    let (d, e, f) = build_elements-AllDistinct sha256 cisco_ons_tid ons (3 + n) [] t in
    (a, omega arith, d, omega arith)
