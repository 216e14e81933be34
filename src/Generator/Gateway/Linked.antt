-- ===== src/Generator/Gateway/Linked.antt =====
-- Two devices in a row have an element in common.
use rconfig_sim.Base.{
  ltb, ◌==◌, if◌then◌else◌, lt→ltb, Bytes, ℕ, ◌+◌, ◌-◌, ◌<◌, ◌≡◌, refl, ◌≢◌, inl, true, false, [],
  ◌∷◌, arith, In, In-append_left, In-append_right, In-map,
}
use rconfig_sim.Generator.Shelf.{FleetConfig}
use rconfig_sim.Generator.Gateway.{link_tid, link_rnes, build_shared_rne_shelf, build_ciena_gne}
use rconfig_sim.Fault.{Rng}

link_rnes-forward :
    (cfg : FleetConfig) (i : ℕ)
    → cfg.rne_dual_home_pct ≢ 0
    → i + 1 < cfg.count
    → In (link_tid i) (link_rnes cfg i)
unfolding link_rnes
link_rnes-forward cfg i on l =
    let a : (cfg.rne_dual_home_pct == 0) ≡ false = ground arith in
    let b : ltb (i + 1) cfg.count ≡ true = lt→ltb (i + 1) cfg.count l in
    simp (a, b)
      (In-append_right (link_tid i) (if ltb 0 i then link_tid (i - 1) ∷ [] else [])
        (link_tid i ∷ []) (inl refl))

link_rnes-backward :
    (cfg : FleetConfig) (i : ℕ)
    → cfg.rne_dual_home_pct ≢ 0
    → In (link_tid i) (link_rnes cfg (i + 1))
unfolding link_rnes
link_rnes-backward cfg i on =
    let a : (cfg.rne_dual_home_pct == 0) ≡ false = ground arith in
    let b : ltb 0 (i + 1) ≡ true = ground arith in
    let c : i + 1 - 1 ≡ i = omega arith in simp (a, b, c) (inl refl)

module _ (sha256 : Bytes → Bytes) (new_source : ℕ → Rng) (cfg : FleetConfig) where
  rnes-links :
      (i : ℕ) (tid : Bytes)
      → In tid (link_rnes cfg i)
      → In
          (build_shared_rne_shelf sha256 new_source cfg tid)
          (build_ciena_gne sha256 new_source cfg i).rnes
  unfolding build_ciena_gne
  rnes-links i tid m =
      In-append_left _ _ _
        (In-map (λ (t : Bytes). build_shared_rne_shelf sha256 new_source cfg t) tid _ m)

  -- With dual-homing on, a gateway and the one with the next index show one remote element with the
  -- same shelf: the element that is named for the link between them.
  pub build_ciena_gne-linked :
      (i : ℕ)
      → cfg.rne_dual_home_pct ≢ 0
      → i + 1 < cfg.count
      → In
          (build_shared_rne_shelf sha256 new_source cfg (link_tid i))
          (build_ciena_gne sha256 new_source cfg i).rnes
        × In
            (build_shared_rne_shelf sha256 new_source cfg (link_tid i))
            (build_ciena_gne sha256 new_source cfg (i + 1)).rnes
  build_ciena_gne-linked i on l = (
    rnes-links i (link_tid i) (link_rnes-forward cfg i on l),
    rnes-links (i + 1) (link_tid i) (link_rnes-backward cfg i on),
  )
