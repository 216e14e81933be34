-- ===== src/Generator/Cisco/Routing.antt =====
-- internal/configs/build.go: `buildOSPF`, `buildBGP` and `buildStaticRoutes`.
use rconfig_sim.Base.{
  ltb, if◌then◌else◌, length, Bytes, codes, ℕ, ◌+◌, ◌-◌, ◌*◌, ◌%◌, Bool, true, Option, none, some,
  List, [], ◌∷◌, ◌++◌,
}
use rconfig_sim.Generator.Random.{
  Draw, ◌>>=◌, give, quad, random_mgmt_ip, random_rfc1918, random_public_ip,
}
use rconfig_sim.Generator.Draws.{chance, chance_if, draw_each, one_at_least}
use rconfig_sim.Generator.Cisco.Size.{SizeProfile}
use rconfig_sim.Generator.Cisco.Users.{Vrf}
use rconfig_sim.Generator.Cisco.Interfaces.{draw_vrf}
use rconfig_sim.Generator.Cisco.Policies.{all_drawn}
use rconfig_sim.Text.Decimal.{decimal, decimal_padded}
use rconfig_sim.Fault.{intn}

pub record OspfArea : Type 0 where
  pub id : ℕ
  pub kind : Bytes

pub record OspfNetwork : Type 0 where
  pub network : Bytes
  pub wildcard : Bytes
  pub area : ℕ

pub record OspfProcess : Type 0 where
  pub id : ℕ
  pub router_id : Bytes
  pub redistribute : List Bytes
  pub areas : List OspfArea
  pub passive_ifs : List Bytes
  pub networks : List OspfNetwork

unfoldable pub ospf_area_of : ℕ → Draw OspfArea
ospf_area_of i = do
  nssa ← chance_if (ltb 1 i) 2
  give (record { id = i; kind = if nssa then codes "nssa" else codes "stub" })

unfoldable pub ospf_network : SizeProfile → ℕ → Draw OspfNetwork
ospf_network prof i = do
  b ← intn 256
  c ← intn 256
  area ← intn (one_at_least prof.ospf_areas)
  give (record { network = quad 10 b c 0; wildcard = codes "0.0.0.255"; area = area })

unfoldable pub passive_if : ℕ → Draw Bytes
passive_if i = do k ← intn 12; give (codes "GigabitEthernet1/" ++ (decimal i ++ (b'/' ∷ decimal k)))

-- `buildOSPF`.
unfoldable pub build_ospf : SizeProfile → Draw OspfProcess
unfolding ospf_area_of ospf_network passive_if
build_ospf prof = do
  id ← random_mgmt_ip
  areas ← draw_each ospf_area_of 1 (one_at_least prof.ospf_areas - 1)
  let nets = prof.ospf_areas * 4
  networks ← draw_each (ospf_network prof) 0 (if ltb nets 4 then 4 else nets)
  passive ← draw_each passive_if 0 4
  give (record {
    id = 1;
    router_id = id;
    redistribute = codes "static subnets route-map STATIC-TO-OSPF" ∷ codes "connected subnets" ∷ [];
    areas = areas;
    passive_ifs = passive;
    networks = networks;
  })

pub record BgpNeighbor : Type 0 where
  pub ip : Bytes
  pub remote_as : ℕ
  pub description : Bytes
  pub update_source : Bytes
  pub ebgp_multihop : ℕ
  pub soft_reconfig : Bool
  pub next_hop_self : Bool
  pub route_map_in : Bytes
  pub route_map_out : Bytes
  pub prefix_list_in : Bytes
  pub prefix_list_out : Bytes
  pub send_community : Bool
  pub max_prefix : ℕ

pub record BgpNetwork : Type 0 where
  pub network : Bytes
  pub mask : Bytes
  pub route_map : Bytes

pub record BgpProcess : Type 0 where
  pub local_as : ℕ
  pub router_id : Bytes
  pub log_adj_changes : Bool
  pub neighbors : List BgpNeighbor
  pub networks : List BgpNetwork
  pub redistribute : List Bytes
  pub aggregate : List Bytes

unfoldable pub neighbor_at : SizeProfile → ℕ → Bytes → ℕ → BgpNeighbor
neighbor_at prof i ip remote =
    let map_number = decimal_padded 2 (i % prof.route_map_count) in
    let list_number = decimal_padded 2 (i % one_at_least prof.prefix_list_count) in
    record {
      ip = ip;
      remote_as = 64512 + remote;
      description = codes "ebgp-peer-" ++ decimal i;
      update_source = codes "Loopback0";
      ebgp_multihop = 2;
      soft_reconfig = true;
      next_hop_self = true;
      route_map_in = codes "RM-IN-" ++ map_number;
      route_map_out = codes "RM-OUT-" ++ map_number;
      prefix_list_in = codes "PL-IN-" ++ list_number;
      prefix_list_out = codes "PL-OUT-" ++ list_number;
      send_community = true;
      max_prefix = 100000;
    }

unfoldable pub bgp_neighbor : ℕ → SizeProfile → ℕ → Draw (Option BgpNeighbor)
unfolding neighbor_at
bgp_neighbor f prof i = do
  drawn ← random_public_ip f
  remote ← intn 1024
  give (elim drawn [ none ↦ none | some ip ↦ some (neighbor_at prof i ip remote) ])

unfoldable pub bgp_network : ℕ → Draw BgpNetwork
bgp_network i = do
  b ← intn 256
  give (record { network = quad 10 b 0 0; mask = codes "255.255.0.0"; route_map = [] })

-- `buildBGP`, of a size with a route map at least; f is the fuel of every public address.
unfoldable pub build_bgp : ℕ → SizeProfile → ℕ → Draw (Option BgpProcess)
unfolding bgp_neighbor bgp_network
build_bgp f prof local_as = do
  id ← random_mgmt_ip
  drawn ← draw_each (bgp_neighbor f prof) 0 prof.bgp_neighbors
  networks ← draw_each bgp_network 0 20
  give (elim (all_drawn drawn) [
    | none ↦ none
    | some neighbors ↦ some (record {
      local_as = local_as;
      router_id = id;
      log_adj_changes = true;
      neighbors = neighbors;
      networks = networks;
      redistribute = codes "static route-map STATIC-TO-BGP" ∷ codes "connected" ∷ [];
      aggregate = [];
    })
  ])

pub record StaticRoute : Type 0 where
  pub network : Bytes
  pub mask : Bytes
  pub next_hop : Bytes
  pub ad : ℕ
  pub name : Bytes
  pub vrf : Bytes

unfoldable pub distance : Bool → Draw ℕ
distance b = if b then (do k ← intn 55; give (200 + k)) else give 0

unfoldable pub static_route : List Vrf → ℕ → Draw StaticRoute
unfolding distance
static_route vrfs i = do
  b ← intn 256
  c ← intn 256
  hop ← random_rfc1918
  far ← chance 10
  ad ← distance far
  named ← chance 4
  has_vrf ← chance_if (ltb 0 (length vrfs)) 5
  vrf ← draw_vrf has_vrf vrfs []
  give (record {
    network = quad 10 b c 0;
    mask = codes "255.255.255.0";
    next_hop = hop;
    ad = ad;
    name = if named then codes "route-" ++ decimal i else [];
    vrf = vrf;
  })

-- `buildStaticRoutes`.
unfoldable pub build_static_routes : SizeProfile → List Vrf → Draw (List StaticRoute)
unfolding static_route
build_static_routes prof vrfs = draw_each (static_route vrfs) 0 prof.static_route_count
