-- ===== src/Generator/Cisco/Size.antt =====
-- internal/configs/generator.go: the sizes of Cisco configurations.
use rconfig_sim.Base.{Bytes, ℕ, Bool, false, []}

-- `profile`.
pub record SizeProfile : Type 0 where
  pub device_kind : Bytes
  pub interface_count : ℕ
  pub subinterface_count : ℕ
  pub vlan_count : ℕ
  pub acl_count : ℕ
  pub acl_entries_min : ℕ
  pub acl_entries_max : ℕ
  pub prefix_list_count : ℕ
  pub prefix_list_entries_min : ℕ
  pub prefix_list_entries_max : ℕ
  pub route_map_count : ℕ
  pub static_route_count : ℕ
  pub bgp_neighbors : ℕ
  pub ospf_areas : ℕ
  pub vrf_count : ℕ
  pub has_bgp : Bool
  pub has_ospf : Bool
  pub has_crypto : Bool
  pub has_qos : Bool
  pub has_vrf : Bool
  pub file_size_hint : ℕ

-- The zero value.
abbrev pub no_size : SizeProfile
no_size = record {
  device_kind = [];
  interface_count = 0;
  subinterface_count = 0;
  vlan_count = 0;
  acl_count = 0;
  acl_entries_min = 0;
  acl_entries_max = 0;
  prefix_list_count = 0;
  prefix_list_entries_min = 0;
  prefix_list_entries_max = 0;
  route_map_count = 0;
  static_route_count = 0;
  bgp_neighbors = 0;
  ospf_areas = 0;
  vrf_count = 0;
  has_bgp = false;
  has_ospf = false;
  has_crypto = false;
  has_qos = false;
  has_vrf = false;
  file_size_hint = 0;
}
