-- ===== src/Generator/Cisco/Ports.antt =====
-- internal/configs/build.go: the ports of `buildInterfaces`, and `buildSubinterfaces`.
pub mod Refers
use rconfig_sim.Base.{
  ltb, if◌then◌else◌, length, Bytes, codes, equal, ℕ, ◌+◌, ◌*◌, ◌/◌, ◌%◌, Bool, List, [], ◌∷◌, ◌++◌,
}
use rconfig_sim.Generator.Random.{Draw, ◌>>=◌, give, random_mgmt_ip, random_rfc1918}
use rconfig_sim.Generator.Draws.{chance, chance_if, draw_each}
use rconfig_sim.Generator.Cisco.Size.{SizeProfile}
use rconfig_sim.Generator.Cisco.Users.{Vlan, Vrf}
use rconfig_sim.Generator.Cisco.Interfaces.{
  no_interface, router, switch, routed, switch_port, switch_description, draw_vrf, router_port,
  Interface,
}
use rconfig_sim.Text.Decimal.{decimal}
use rconfig_sim.Fault.{intn}

unfoldable pub port_name : SizeProfile → ℕ → Bytes
port_name prof i =
    codes "GigabitEthernet"
    ++ (if equal prof.device_kind router
        then codes "1/" ++ (decimal (i / 12) ++ (b'/' ∷ decimal (i % 12)))
        else if equal prof.device_kind switch
        then codes "0/" ++ decimal (1 + i)
        else codes "1/" ++ decimal i)

-- The port of a switch, or else of a router.
unfoldable pub port_of : SizeProfile → List Vlan → List Vrf → ℕ → Bool → Interface → Draw Interface
unfolding switch_port switch_description router_port
port_of prof vlans vrfs i is_switch intf =
    if is_switch
    then (do p ← switch_port vlans intf; switch_description i p)
    else router_port prof vrfs intf

-- The i-th data-plane interface.
unfoldable pub build_port : SizeProfile → List Vlan → List Vrf → ℕ → Draw Interface
unfolding port_of port_name
build_port prof vlans vrfs i = do
  port ←
      port_of prof vlans vrfs i (equal prof.device_kind switch)
        (record no_interface { name = port_name prof i; mtu = 1500 })
  down ← chance 25
  give (record port { shutdown = down })

unfoldable pub loopback : Bytes → Interface
loopback ip = record no_interface {
  name = codes "Loopback0";
  description = codes "Router-ID / management loopback";
  mode = routed;
  ip_address = ip;
  netmask = codes "255.255.255.255";
}

unfoldable pub management_port : Bytes → Interface
management_port ip = record no_interface {
  name = codes "GigabitEthernet0/0";
  description = codes "OOB MGMT";
  mode = routed;
  ip_address = ip;
  netmask = codes "255.255.255.0";
  vrf = codes "MGMT";
}

unfoldable pub management_ports : SizeProfile → Draw (List Interface)
unfolding management_port
management_ports prof =
    if equal prof.device_kind router
    then (do ip ← random_mgmt_ip; give (management_port ip ∷ []))
    else give []

-- `buildInterfaces`.
unfoldable pub build_interfaces : SizeProfile → List Vlan → List Vrf → Draw (List Interface)
unfolding loopback management_ports build_port
build_interfaces prof vlans vrfs = do
  ip ← random_mgmt_ip
  mgmt ← management_ports prof
  ports ← draw_each (build_port prof vlans vrfs) 0 prof.interface_count
  give (loopback ip ∷ (mgmt ++ ports))

pub record Subinterface : Type 0 where
  pub name : Bytes
  pub description : Bytes
  pub encap_vlan : ℕ
  pub vrf : Bytes
  pub ip_address : Bytes
  pub netmask : Bytes
  pub hsrp_group : ℕ
  pub hsrp_ip : Bytes

unfoldable pub standby : Bool → Draw (ℕ × Bytes)
standby b = if b then (do g ← intn 90; ip ← random_rfc1918; give (10 + g, ip)) else give (0, [])

unfoldable pub build_subinterface : List Vrf → ℕ → Draw Subinterface
unfolding draw_vrf standby
build_subinterface vrfs i = do
  let vlan = 100 + i * 2
  ip ← random_rfc1918
  has_vrf ← chance_if (ltb 0 (length vrfs)) 3
  vrf ← draw_vrf has_vrf vrfs []
  has_hsrp ← chance 5
  hsrp ← standby has_hsrp
  give (record {
    name =
        codes "GigabitEthernet1/"
        ++ (decimal (i / 12) ++ (b'/' ∷ (decimal (i % 12) ++ (b'.' ∷ decimal vlan))));
    description = codes "VLAN " ++ (decimal vlan ++ codes " sub-if");
    encap_vlan = vlan;
    vrf = vrf;
    ip_address = ip;
    netmask = codes "255.255.255.252";
    hsrp_group = hsrp.0;
    hsrp_ip = hsrp.1;
  })

-- `buildSubinterfaces`.
unfoldable pub build_subinterfaces : SizeProfile → List Vrf → Draw (List Subinterface)
unfolding build_subinterface
build_subinterfaces prof vrfs = draw_each (build_subinterface vrfs) 0 prof.subinterface_count
