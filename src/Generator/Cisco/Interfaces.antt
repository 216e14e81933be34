-- ===== src/Generator/Cisco/Interfaces.antt =====
-- internal/configs/build.go: what `buildInterfaces` does to one interface.
use rconfig_sim.Base.{
  ltb, if◌then◌else◌, length, get_or, drop, Bytes, codes, ℕ, ◌+◌, Bool, true, false, ◌&&◌, List, [],
  ◌∷◌, ◌++◌, map,
}
use rconfig_sim.Generator.Random.{Draw, ◌>>=◌, give, pick, random_rfc1918}
use rconfig_sim.Generator.Draws.{chance, chance_if, one_at_least}
use rconfig_sim.Generator.Shelf.{city_syllables}
use rconfig_sim.Generator.Cisco.Size.{SizeProfile}
use rconfig_sim.Generator.Cisco.Users.{Vlan, Vrf}
use rconfig_sim.Text.{to_upper, join, fields}
use rconfig_sim.Text.Decimal.{decimal, decimal_padded}
use rconfig_sim.Fault.{intn}

pub record Interface : Type 0 where
  pub name : Bytes
  pub description : Bytes
  pub mode : Bytes
  pub ip_address : Bytes
  pub netmask : Bytes
  pub vlan : ℕ
  pub allowed_vlans : Bytes
  pub shutdown : Bool
  pub service_policy_in : Bytes
  pub service_policy_out : Bytes
  pub acl_in : Bytes
  pub acl_out : Bytes
  pub ospf_area : ℕ
  pub ospf_cost : ℕ
  pub hsrp_group : ℕ
  pub hsrp_ip : Bytes
  pub hsrp_priority : ℕ
  pub speed : Bytes
  pub duplex : Bytes
  pub mtu : ℕ
  pub portfast : Bool
  pub bpdu_guard : Bool
  pub vrf : Bytes

-- The zero value.
abbrev pub no_interface : Interface
no_interface = record {
  name = [];
  description = [];
  mode = [];
  ip_address = [];
  netmask = [];
  vlan = 0;
  allowed_vlans = [];
  shutdown = false;
  service_policy_in = [];
  service_policy_out = [];
  acl_in = [];
  acl_out = [];
  ospf_area = 0;
  ospf_cost = 0;
  hsrp_group = 0;
  hsrp_ip = [];
  hsrp_priority = 0;
  speed = [];
  duplex = [];
  mtu = 0;
  portfast = false;
  bpdu_guard = false;
  vrf = [];
}

abbrev pub router : Bytes
router = codes "router"

abbrev pub switch : Bytes
switch = codes "switch"

abbrev pub access : Bytes
access = codes "access"

abbrev pub trunk : Bytes
trunk = codes "trunk"

abbrev pub routed : Bytes
routed = codes "routed"

abbrev pub site_functions : List Bytes
site_functions = fields (codes "hq dc colo branch edge pop lab admin rnd ops")

abbrev pub services : List Bytes
services = fields (codes "inet mpls-vpn mpls-l2vpn internet transit peering backbone")

abbrev pub vlan_ids : List Vlan → List ℕ
vlan_ids [] = []
vlan_ids (v ∷ vs) = v.id ∷ vlan_ids vs

abbrev pub vrf_names : List Vrf → List Bytes
vrf_names [] = []
vrf_names (v ∷ vs) = v.name ∷ vrf_names vs

-- `allowedVLANsString`, which draws nothing.
unfoldable pub allowed_vlans_string : List Vlan → Bytes
allowed_vlans_string [] = codes "1"
allowed_vlans_string (v ∷ vs) = join (map decimal (vlan_ids (v ∷ vs))) (codes ",")

-- The port of a switch that has VLANs, the first of which is v.
unfoldable pub vlan_port : Vlan → List Vlan → Bool → Interface → Draw Interface
unfolding allowed_vlans_string
vlan_port v vs is_trunk intf =
    if is_trunk
    then give
        (record intf { mode = trunk; vlan = v.id; allowed_vlans = allowed_vlans_string (v ∷ vs) })
    else (do
      k ← intn (length (v ∷ vs))
      give (record intf {
        mode = access;
        vlan = get_or (vlan_ids (v ∷ vs)) k 0;
        portfast = true;
        bpdu_guard = true;
      }))

-- The mode, the VLAN and the guards of a switch's port.
unfoldable pub switch_port : List Vlan → Interface → Draw Interface
unfolding vlan_port
switch_port [] intf = give (record intf { mode = access; vlan = 1 })
switch_port (v ∷ vs) intf = do is_trunk ← chance 12; vlan_port v vs is_trunk intf

unfoldable pub switch_description : ℕ → Interface → Draw Interface
switch_description i intf = do
  user ← intn 9999
  city ← pick city_syllables
  place ← pick site_functions
  drop_city ← pick city_syllables
  drop ← intn 60
  give (record intf {
    description =
        to_upper intf.mode
        ++ (codes " port "
            ++ (decimal i
                ++ (codes " // user-"
                    ++ (decimal_padded 4 (1 + user)
                        ++ (b'-'
                            ∷ (city
                                ++ (b'-'
                                    ∷ (place
                                        ++ (codes " / drop-"
                                            ++ (drop_city
                                                ++ (decimal_padded 2 (1 + drop)
                                                    ++ (codes "-port-"
                                                        ++ decimal_padded 2 i))))))))))));
  })

unfoldable pub router_description : Interface → Draw Interface
router_description intf = do
  city ← pick city_syllables
  place ← pick site_functions
  peer ← intn 9000
  circuit ← intn 900000
  vlan ← intn 3900
  service ← pick services
  give (record intf {
    description =
        codes "to-peer-rtr-"
        ++ (city
            ++ (b'-'
                ∷ (place
                    ++ (b'-'
                        ∷ (decimal_padded 4 (1000 + peer)
                            ++ (codes " // circuit-C"
                                ++ (decimal_padded 6 (100000 + circuit)
                                    ++ (codes " vlan-"
                                        ++ (decimal_padded 4 (100 + vlan)
                                            ++ (codes " svc-" ++ service))))))))));
  })

unfoldable pub ospf_part : SizeProfile → Bool → Interface → Draw Interface
ospf_part prof b intf =
    if b
    then (do
      area ← intn (one_at_least prof.ospf_areas)
      cost ← intn 90
      give (record intf { ospf_area = area; ospf_cost = 10 + cost }))
    else give intf

-- The draw comes before the test of the number of lists.
unfoldable pub acl_part : SizeProfile → Bool → Interface → Draw Interface
acl_part prof b intf =
    if b && ltb 0 prof.acl_count
    then (do
      k ← intn prof.acl_count
      give (record intf { acl_in = codes "ACL-IN-" ++ decimal_padded 2 k }))
    else give intf

unfoldable pub hsrp_part : Bool → Interface → Draw Interface
hsrp_part b intf =
    if b
    then (do
      group ← intn 90
      ip ← random_rfc1918
      priority ← intn 100
      give (record intf { hsrp_group = 10 + group; hsrp_ip = ip; hsrp_priority = 100 + priority }))
    else give intf

-- The name of one of the VRFs, or what there was, where b is false.
unfoldable pub draw_vrf : Bool → List Vrf → Bytes → Draw Bytes
draw_vrf b vrfs old = if b then pick (vrf_names vrfs) else give old

unfoldable pub router_port : SizeProfile → List Vrf → Interface → Draw Interface
unfolding router_description ospf_part acl_part hsrp_part draw_vrf
router_port prof vrfs intf = do
  ip ← random_rfc1918
  described ←
      router_description
        (record intf { mode = routed; ip_address = ip; netmask = codes "255.255.255.0" })
  has_area ← chance_if prof.has_ospf 2
  with_area ← ospf_part prof has_area described
  has_policy ← chance_if prof.has_qos 3
  has_acl ← chance 8
  with_acl ← acl_part prof has_acl (
      if has_policy
      then record with_area { service_policy_out = codes "WAN-OUT-POLICY" }
      else with_area)
  has_hsrp ← chance 10
  with_hsrp ← hsrp_part has_hsrp with_acl
  has_vrf ← chance_if (ltb 0 (length vrfs)) 6
  vrf ← draw_vrf has_vrf vrfs with_hsrp.vrf
  give (record with_hsrp { vrf = vrf })
