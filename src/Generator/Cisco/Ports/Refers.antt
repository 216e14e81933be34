-- ===== src/Generator/Cisco/Ports/Refers.antt =====
-- What an interface names is there.
use rconfig_sim.Generator.Cisco.Ports.{
  port_name, port_of, build_port, loopback, management_port, management_ports, build_interfaces,
}
use rconfig_sim.Base.{
  ltb, if◌then◌else◌, ltb→lt, Bool-cases, length, get_or, All, All-append, Bytes, codes, equal, ℕ,
  zero, suc, ◌<◌, ◌≡◌, refl, ap, ◌∙◌, ◌⊎◌, inl, inr, Bool, true, false, ◌&&◌, List, [], ◌∷◌, arith,
  In,
}
use rconfig_sim.Generator.Cisco.Interfaces.{
  no_interface, router, switch, routed, vlan_ids, vrf_names, vlan_port, switch_port,
  switch_description, router_description, ospf_part, acl_part, hsrp_part, draw_vrf, router_port,
  Interface,
}
use rconfig_sim.Generator.Cisco.Users.{Vlan, Vrf}
use rconfig_sim.Generator.Cisco.Size.{SizeProfile}
use rconfig_sim.Generator.Draws.{chance, chance_if, All-draw_each}
use rconfig_sim.Generator.Random.{pick, random_mgmt_ip, random_rfc1918}
use rconfig_sim.Fault.{intn, intn_lt, Rng}

-- The VLANs that a port of a switch may be in.
abbrev pub port_vlans : List Vlan → List ℕ
port_vlans [] = 1 ∷ []
port_vlans (v ∷ vs) = vlan_ids (v ∷ vs)

-- An interface is routed, or its VLAN is one of the device's; its VRF is none, the management VRF, or
-- one of the device's.
abbrev pub Refers : List Vlan → List Vrf → Interface → Type 0
Refers vlans vrfs intf =
    ((intf.mode ≡ routed) ⊎ In intf.vlan (port_vlans vlans))
    × ((intf.vrf ≡ []) ⊎ ((intf.vrf ≡ codes "MGMT") ⊎ In intf.vrf (vrf_names vrfs)))

In-get_or : {A : Type 0} (xs : List A) (k : ℕ) (d : A) → k < length xs → In (get_or xs k d) xs
In-get_or [] k d h = absurd (omega arith)
In-get_or (x ∷ xs) zero d h = inl refl
In-get_or (x ∷ xs) (suc k) d h = inr (In-get_or xs k d (omega arith))

length-vlan_ids : (vs : List Vlan) → length (vlan_ids vs) ≡ length vs
length-vlan_ids [] = refl
length-vlan_ids (v ∷ vs) = ap suc (length-vlan_ids vs)

length-vrf_names : (vs : List Vrf) → length (vrf_names vs) ≡ length vs
length-vrf_names [] = refl
length-vrf_names (v ∷ vs) = ap suc (length-vrf_names vs)

In-pick : (words : List Bytes) (r : Rng) → 0 < length words → In (pick words r).0 words
unfolding pick
In-pick words r h = In-get_or words (intn (length words) r).0 [] (intn_lt (length words) r h)

vlan_port-In :
    (v : Vlan) (vs : List Vlan) (t : Bool) (intf : Interface) (r : Rng)
    → In (vlan_port v vs t intf r).0.vlan (vlan_ids (v ∷ vs))
      × ((vlan_port v vs t intf r).0.vrf ≡ intf.vrf)
unfolding vlan_port
vlan_port-In v vs true intf r = (inl refl, refl)
vlan_port-In v vs false intf r =
    let n = length-vlan_ids (v ∷ vs) in
    let h = intn_lt (length (v ∷ vs)) r (omega arith) in
    (In-get_or (vlan_ids (v ∷ vs)) (intn (length (v ∷ vs)) r).0 0 (omega arith), refl)

-- The VLAN of a switch's port.
switch_port-In :
    (vlans : List Vlan) (intf : Interface) (r : Rng)
    → In (switch_port vlans intf r).0.vlan (port_vlans vlans)
      × ((switch_port vlans intf r).0.vrf ≡ intf.vrf)
unfolding switch_port
switch_port-In [] intf r = (inl refl, refl)
switch_port-In (v ∷ vs) intf r = vlan_port-In v vs (chance 12 r).0 intf (chance 12 r).1

-- What the parts of a router's port leave as it is.
abbrev Keeps : Interface → Interface → Type 0
Keeps a b = (b.mode ≡ a.mode) × (b.vrf ≡ a.vrf)

ospf_part-Keeps :
    (prof : SizeProfile) (b : Bool) (a : Interface) (r : Rng) → Keeps a (ospf_part prof b a r).0
unfolding ospf_part
ospf_part-Keeps prof true a r = (refl, refl)
ospf_part-Keeps prof false a r = (refl, refl)

acl_part-Keeps :
    (prof : SizeProfile) (b : Bool) (a : Interface) (r : Rng) → Keeps a (acl_part prof b a r).0
unfolding acl_part
acl_part-Keeps prof b a r = elim (Bool-cases (b && ltb 0 prof.acl_count)) [
  | inl e ↦ rw e (refl, refl)
  | inr e ↦ rw e (refl, refl)
]

hsrp_part-Keeps : (b : Bool) (a : Interface) (r : Rng) → Keeps a (hsrp_part b a r).0
unfolding hsrp_part
hsrp_part-Keeps true a r = (refl, refl)
hsrp_part-Keeps false a r = (refl, refl)

policy_part-Keeps :
    (b : Bool) (a : Interface) (policy : Bytes)
    → Keeps a (if b then record a { service_policy_out = policy } else a)
policy_part-Keeps true a policy = (refl, refl)
policy_part-Keeps false a policy = (refl, refl)

chance_if-some : (b : Bool) (n : ℕ) (r : Rng) → (chance_if b n r).0 ≡ true → b ≡ true
unfolding chance_if
chance_if-some true n r h = refl
chance_if-some false n r h = absurd (ground arith)

-- A VRF that is drawn is one of the device's.
In-draw_vrf :
    (vrfs : List Vrf) (n : ℕ) (old : Bytes) (r s : Rng)
    → ((draw_vrf (chance_if (ltb 0 (length vrfs)) n r).0 vrfs old s).0 ≡ old)
      ⊎ In (draw_vrf (chance_if (ltb 0 (length vrfs)) n r).0 vrfs old s).0 (vrf_names vrfs)
unfolding draw_vrf
In-draw_vrf vrfs n old r s = elim (Bool-cases (chance_if (ltb 0 (length vrfs)) n r).0) [
  | inr e ↦ rw (e, draw_vrf) (inl refl)
  | inl e ↦
      let h = chance_if-some (ltb 0 (length vrfs)) n r e in
      let l = ltb→lt 0 (length vrfs) h in
      let m = length-vrf_names vrfs in
      rw (e, draw_vrf) (inr (In-pick (vrf_names vrfs) s (omega arith)))
]

router_port-Refers :
    (prof : SizeProfile) (vlans : List Vlan) (vrfs : List Vrf) (a : Interface) (r : Rng)
    → a.vrf ≡ []
    → Refers vlans vrfs (router_port prof vrfs a r).0
unfolding router_port router_description
router_port-Refers prof vlans vrfs a r z =
    let ip = random_rfc1918 r in
    let b =
      router_description
        (record a { mode = routed; ip_address = ip.0; netmask = codes "255.255.255.0" }) ip.1 in
    let has_area = chance_if prof.has_ospf 2 b.1 in
    let c = ospf_part prof has_area.0 b.0 has_area.1 in
    let kc = ospf_part-Keeps prof has_area.0 b.0 has_area.1 in
    let has_policy = chance_if prof.has_qos 3 c.1 in
    let kp = policy_part-Keeps has_policy.0 c.0 (codes "WAN-OUT-POLICY") in
    let has_acl = chance 8 has_policy.1 in
    let p : Interface =
      if has_policy.0 then record (c.0) { service_policy_out = codes "WAN-OUT-POLICY" } else c.0 in
    let d = acl_part prof has_acl.0 p has_acl.1 in
    let kd = acl_part-Keeps prof has_acl.0 p has_acl.1 in
    let has_hsrp = chance 10 d.1 in
    let e = hsrp_part has_hsrp.0 d.0 has_hsrp.1 in
    let ke = hsrp_part-Keeps has_hsrp.0 d.0 has_hsrp.1 in
    let has_vrf = chance_if (ltb 0 (length vrfs)) 6 e.1 in
    let m = In-draw_vrf vrfs 6 e.0.vrf e.1 has_vrf.1 in
    let v : e.0.vrf ≡ [] = ke.1 ∙ (kd.1 ∙ (kp.1 ∙ (kc.1 ∙ z))) in
    (inl (ke.0 ∙ (kd.0 ∙ (kp.0 ∙ kc.0))), elim m [ inl k ↦ inl (k ∙ v) | inr k ↦ inr (inr k) ])

port_of-Refers :
    (prof : SizeProfile) (vlans : List Vlan) (vrfs : List Vrf) (i : ℕ) (b : Bool) (a : Interface)
    (r : Rng)
    → a.vrf ≡ []
    → Refers vlans vrfs (port_of prof vlans vrfs i b a r).0
unfolding port_of switch_description
port_of-Refers prof vlans vrfs i true a r z =
    let m = switch_port-In vlans a r in (inr (m.0), inl (m.1 ∙ z))
port_of-Refers prof vlans vrfs i false a r z = router_port-Refers prof vlans vrfs a r z

build_port-Refers :
    (prof : SizeProfile) (vlans : List Vlan) (vrfs : List Vrf) (i : ℕ) (r : Rng)
    → Refers vlans vrfs (build_port prof vlans vrfs i r).0
unfolding build_port
build_port-Refers prof vlans vrfs i r =
    port_of-Refers prof vlans vrfs i (equal prof.device_kind switch)
      (record no_interface { name = port_name prof i; mtu = 1500 }) r refl

-- The interfaces in front of the ports.
management_ports-Refers :
    (prof : SizeProfile) (vlans : List Vlan) (vrfs : List Vrf) (r : Rng)
    → All (Refers vlans vrfs) (management_ports prof r).0
unfolding management_ports management_port
management_ports-Refers prof vlans vrfs r = elim (Bool-cases (equal prof.device_kind router)) [
  | inl e ↦ rw e ((inl refl, inr (inl refl)), tt)
  | inr e ↦ rw e tt
]

-- Whatever is drawn, an interface is routed or in a VLAN of the device (in 1, where it has none), and
-- in no VRF, in MGMT, or in a VRF of the device.
pub build_interfaces-Refers :
    (prof : SizeProfile) (vlans : List Vlan) (vrfs : List Vrf) (r : Rng)
    → All (Refers vlans vrfs) (build_interfaces prof vlans vrfs r).0
unfolding build_interfaces loopback
build_interfaces-Refers prof vlans vrfs r =
    let ip = random_mgmt_ip r in
    let mgmt = management_ports prof ip.1 in
    (
      (inl refl, inl refl),
      All-append (Refers vlans vrfs) mgmt.0 _ (management_ports-Refers prof vlans vrfs ip.1) (
          All-draw_each (Refers vlans vrfs) (build_port prof vlans vrfs)
            (build_port-Refers prof vlans vrfs) 0 prof.interface_count mgmt.1),
    )
