-- ===== src/Generator/Cisco/Sizes.antt =====
-- internal/configs/generator.go: the table of the sizes.
use rconfig_sim.Base.{if◌then◌else◌, Bytes, codes, equal, true}
use rconfig_sim.Generator.Cisco.Size.{no_size, SizeProfile}

abbrev pub small_size : SizeProfile
small_size = record no_size {
  device_kind = codes "switch";
  interface_count = 48;
  subinterface_count = 0;
  vlan_count = 4;
  acl_count = 3;
  acl_entries_min = 25;
  acl_entries_max = 40;
  static_route_count = 5;
  file_size_hint = 30000;
}

abbrev pub medium_size : SizeProfile
medium_size = record no_size {
  device_kind = codes "router";
  interface_count = 48;
  subinterface_count = 60;
  vlan_count = 20;
  acl_count = 12;
  acl_entries_min = 120;
  acl_entries_max = 200;
  prefix_list_count = 10;
  prefix_list_entries_min = 25;
  prefix_list_entries_max = 40;
  route_map_count = 12;
  static_route_count = 250;
  ospf_areas = 1;
  has_ospf = true;
  has_crypto = true;
  has_qos = true;
  file_size_hint = 150000;
}

abbrev pub large_size : SizeProfile
large_size = record no_size {
  device_kind = codes "router";
  interface_count = 96;
  subinterface_count = 60;
  vlan_count = 30;
  acl_count = 25;
  acl_entries_min = 350;
  acl_entries_max = 500;
  prefix_list_count = 18;
  prefix_list_entries_min = 30;
  prefix_list_entries_max = 45;
  route_map_count = 30;
  static_route_count = 1800;
  bgp_neighbors = 10;
  ospf_areas = 3;
  vrf_count = 6;
  has_bgp = true;
  has_ospf = true;
  has_crypto = true;
  has_qos = true;
  has_vrf = true;
  file_size_hint = 700000;
}

abbrev pub xl_size : SizeProfile
xl_size = record no_size {
  device_kind = codes "router";
  interface_count = 192;
  subinterface_count = 100;
  vlan_count = 40;
  acl_count = 60;
  acl_entries_min = 600;
  acl_entries_max = 800;
  prefix_list_count = 40;
  prefix_list_entries_min = 40;
  prefix_list_entries_max = 60;
  route_map_count = 80;
  static_route_count = 3000;
  bgp_neighbors = 20;
  ospf_areas = 4;
  vrf_count = 30;
  has_bgp = true;
  has_ospf = true;
  has_crypto = true;
  has_qos = true;
  has_vrf = true;
  file_size_hint = 4000000;
}

abbrev pub xl2_size : SizeProfile
xl2_size = record no_size {
  device_kind = codes "router";
  interface_count = 256;
  subinterface_count = 150;
  vlan_count = 60;
  acl_count = 100;
  acl_entries_min = 750;
  acl_entries_max = 1000;
  prefix_list_count = 60;
  prefix_list_entries_min = 50;
  prefix_list_entries_max = 80;
  route_map_count = 120;
  static_route_count = 6000;
  bgp_neighbors = 30;
  ospf_areas = 6;
  vrf_count = 50;
  has_bgp = true;
  has_ospf = true;
  has_crypto = true;
  has_qos = true;
  has_vrf = true;
  file_size_hint = 8000000;
}

abbrev pub xl3_size : SizeProfile
xl3_size = record no_size {
  device_kind = codes "router";
  interface_count = 384;
  subinterface_count = 200;
  vlan_count = 80;
  acl_count = 160;
  acl_entries_min = 1000;
  acl_entries_max = 1300;
  prefix_list_count = 90;
  prefix_list_entries_min = 60;
  prefix_list_entries_max = 100;
  route_map_count = 180;
  static_route_count = 12000;
  bgp_neighbors = 40;
  ospf_areas = 8;
  vrf_count = 70;
  has_bgp = true;
  has_ospf = true;
  has_crypto = true;
  has_qos = true;
  has_vrf = true;
  file_size_hint = 16000000;
}

abbrev pub xl4_size : SizeProfile
xl4_size = record no_size {
  device_kind = codes "router";
  interface_count = 512;
  subinterface_count = 280;
  vlan_count = 100;
  acl_count = 240;
  acl_entries_min = 1300;
  acl_entries_max = 1700;
  prefix_list_count = 130;
  prefix_list_entries_min = 80;
  prefix_list_entries_max = 130;
  route_map_count = 260;
  static_route_count = 24000;
  bgp_neighbors = 60;
  ospf_areas = 10;
  vrf_count = 100;
  has_bgp = true;
  has_ospf = true;
  has_crypto = true;
  has_qos = true;
  has_vrf = true;
  file_size_hint = 32000000;
}

abbrev pub xl5_size : SizeProfile
xl5_size = record no_size {
  device_kind = codes "router";
  interface_count = 768;
  subinterface_count = 400;
  vlan_count = 140;
  acl_count = 380;
  acl_entries_min = 1700;
  acl_entries_max = 2300;
  prefix_list_count = 200;
  prefix_list_entries_min = 100;
  prefix_list_entries_max = 170;
  route_map_count = 400;
  static_route_count = 48000;
  bgp_neighbors = 100;
  ospf_areas = 14;
  vrf_count = 150;
  has_bgp = true;
  has_ospf = true;
  has_crypto = true;
  has_qos = true;
  has_vrf = true;
  file_size_hint = 64000000;
}

abbrev pub xl6_size : SizeProfile
xl6_size = record no_size {
  device_kind = codes "router";
  interface_count = 1024;
  subinterface_count = 600;
  vlan_count = 200;
  acl_count = 600;
  acl_entries_min = 2200;
  acl_entries_max = 3000;
  prefix_list_count = 320;
  prefix_list_entries_min = 130;
  prefix_list_entries_max = 220;
  route_map_count = 640;
  static_route_count = 96000;
  bgp_neighbors = 160;
  ospf_areas = 20;
  vrf_count = 220;
  has_bgp = true;
  has_ospf = true;
  has_crypto = true;
  has_qos = true;
  has_vrf = true;
  file_size_hint = 128000000;
}

-- `profiles[bucket]`.
unfoldable pub size_of : Bytes → SizeProfile
size_of bucket =
    if equal bucket (codes "sm")
    then small_size
    else if equal bucket (codes "md")
    then medium_size
    else if equal bucket (codes "lg")
    then large_size
    else if equal bucket (codes "xl")
    then xl_size
    else if equal bucket (codes "2xl")
    then xl2_size
    else if equal bucket (codes "3xl")
    then xl3_size
    else if equal bucket (codes "4xl")
    then xl4_size
    else if equal bucket (codes "5xl")
    then xl5_size
    else if equal bucket (codes "6xl")
    then xl6_size
    else no_size
