-- ===== src/Generator/Cisco/Build.antt =====
-- internal/configs/build.go: `buildDeviceData`.
use rconfig_sim.Base.{
  if◌then◌else◌, Bytes, codes, equal, ℕ, ◌+◌, ◌/◌, ◌%◌, Bool, Option, none, some, List, [], ◌∷◌,
  ◌++◌,
}
use rconfig_sim.Generator.Random.{
  Draw, ◌>>=◌, give, device_rand, pick, pseudo_cisco_md5, snmp_community, site_code, serial_for,
  random_mgmt_ip, random_ips,
}
use rconfig_sim.Generator.Address.{ip_plus_offset}
use rconfig_sim.Generator.Shelf.{city_syllables, FleetConfig}
use rconfig_sim.Generator.Cisco.Size.{SizeProfile}
use rconfig_sim.Generator.Cisco.Sizes.{size_of}
use rconfig_sim.Generator.Cisco.Users.{build_users, build_vlans, build_vrfs, User, Vlan, Vrf}
use rconfig_sim.Generator.Cisco.Interfaces.{switch, site_functions, Interface}
use rconfig_sim.Generator.Cisco.Ports.{build_interfaces, build_subinterfaces, Subinterface}
use rconfig_sim.Generator.Cisco.Acls.{build_acls, Acl}
use rconfig_sim.Generator.Cisco.Routing.{
  build_ospf, build_bgp, build_static_routes, OspfProcess, BgpProcess, StaticRoute,
}
use rconfig_sim.Generator.Cisco.Filters.{build_prefix_lists, build_route_maps, PrefixList, RouteMap}
use rconfig_sim.Generator.Cisco.Policies.{
  build_crypto_maps, class_maps, wan_policy_map, CryptoMap, QosClassMap, QosPolicyMap,
}
use rconfig_sim.Text.{to_upper}
use rconfig_sim.Text.Decimal.{decimal_padded}
use rconfig_sim.Fault.{intn, Rng}

-- The fields of `TemplateData` that are set first.
pub record Basics : Type 0 where
  pub hostname : Bytes
  pub size_bucket : Bytes
  pub device_kind : Bytes
  pub site : Bytes
  pub mgmt_ip : Bytes
  pub domain_name : Bytes
  pub clock : Bytes
  pub file_size_hint : ℕ
  pub serial_number : Bytes
  pub name_servers : List Bytes
  pub enable_secret : Bytes
  pub snmp_community_ro : Bytes
  pub snmp_community_rw : Bytes
  pub snmp_location : Bytes
  pub snmp_contact : Bytes
  pub logging_hosts : List Bytes
  pub ntp_servers : List Bytes
  pub banner_motd : List Bytes
  pub tacacs_servers : List Bytes
  pub tacacs_key : Bytes
  pub local_asn : ℕ
  pub include_bgp : Bool
  pub include_ospf : Bool
  pub include_crypto : Bool
  pub include_qos : Bool
  pub include_vrf : Bool

-- `TemplateData`.
pub record TemplateData : Type 0 where
  pub basics : Basics
  pub users : List User
  pub interfaces : List Interface
  pub subinterfaces : List Subinterface
  pub vlans : List Vlan
  pub acls : List Acl
  pub ospf : Option OspfProcess
  pub bgp : Option BgpProcess
  pub static_routes : List StaticRoute
  pub prefix_lists : List PrefixList
  pub route_maps : List RouteMap
  pub vrfs : List Vrf
  pub crypto_maps : List CryptoMap
  pub qos_class_maps : List QosClassMap
  pub qos_policy_maps : List QosPolicyMap

-- `bannerLines`, which draws nothing.
unfoldable pub banner_lines : Bytes → Bytes → List Bytes
banner_lines hostname site_func =
    codes "****************************************************************"
    ∷ codes "*                                                              *"
    ∷ (codes "*   " ++ (hostname ++ (codes "  (" ++ (to_upper site_func ++ codes ")"))))
    ∷ codes "*   AUTHORISED ACCESS ONLY                                     *"
    ∷ codes "*   All activity is logged. Disconnect if not authorised.      *"
    ∷ codes "*   Contact: netops@example.net                                *"
    ∷ codes "*                                                              *"
    ∷ codes "****************************************************************"
    ∷ []

unfoldable pub snmp_location_of : Bytes → Draw Bytes
snmp_location_of city = do
  building ← intn 20
  floor ← intn 12
  rack ← intn 60
  give (
      to_upper city
      ++ (codes " / bld-"
          ++ (decimal_padded 2 (1 + building)
              ++ (codes " / floor-"
                  ++ (decimal_padded 2 (1 + floor)
                      ++ (codes " / rack-" ++ decimal_padded 2 (1 + rack)))))))

-- A draw that may come to nothing, and what follows it.
abbrev pub then_draw : {A B : Type 0} → Draw (Option A) → (A → Draw (Option B)) → Draw (Option B)
then_draw m f = do drawn ← m; elim drawn [ none ↦ give none | some a ↦ f a ]

-- A part that the size may leave out: nothing is drawn then.
abbrev pub if_part : {A : Type 0} → Bool → Draw (Option A) → Draw (Option (Option A))
if_part b m =
    if b
    then (do drawn ← m; give (elim drawn [ none ↦ none | some a ↦ some (some a) ]))
    else give (some none)

abbrev pub or_nothing {ℓ} : {A : Type ℓ} → Option (List A) → List A
or_nothing none = []
or_nothing (some xs) = xs

-- `username` is the field of `Config`.
module _ (sha256 : Bytes → Bytes) (cfg : FleetConfig) (username : Bytes) where
  unfoldable pub build_basics : ℕ → Bytes → Draw Basics
  unfolding size_of banner_lines snmp_location_of
  build_basics index bucket = do
    let prof = size_of bucket
    site_index ← intn 200
    site_func ← pick site_functions
    city ← pick city_syllables
    let hostname =
        (if equal prof.device_kind switch then codes "sw" else codes "rtr")
        ++ (b'-'
            ∷ (city ++ (b'-' ∷ (site_func ++ (b'-' ∷ decimal_padded 4 (1000 + index % 9000))))))
    name_servers ← random_ips 2 random_mgmt_ip
    secret ← pseudo_cisco_md5
    community_ro ← snmp_community
    community_rw ← snmp_community
    location ← snmp_location_of city
    logging ← random_ips 2 random_mgmt_ip
    ntp ← random_ips 3 random_mgmt_ip
    tacacs ← random_ips 2 random_mgmt_ip
    key ← pseudo_cisco_md5
    asn ← intn 512
    give (record {
      hostname = hostname;
      size_bucket = bucket;
      device_kind = prof.device_kind;
      site = site_code site_index;
      mgmt_ip = ip_plus_offset cfg.ip_base (index / cfg.devices_per_ip);
      domain_name = site_code site_index ++ (b'.' ∷ (site_func ++ codes ".example.net"));
      clock = codes "10:23:45.123 UTC Mon Mar 10 2026";
      file_size_hint = prof.file_size_hint;
      serial_number = serial_for sha256 hostname;
      name_servers = name_servers;
      enable_secret = secret;
      snmp_community_ro = community_ro;
      snmp_community_rw = community_rw;
      snmp_location = location;
      snmp_contact = codes "NetOps <netops@example.net>";
      logging_hosts = logging;
      ntp_servers = ntp;
      banner_motd = banner_lines hostname site_func;
      tacacs_servers = tacacs;
      tacacs_key = key;
      local_asn = 64500 + asn;
      include_bgp = prof.has_bgp;
      include_ospf = prof.has_ospf;
      include_crypto = prof.has_crypto;
      include_qos = prof.has_qos;
      include_vrf = prof.has_vrf;
    })

  -- The parts behind the VLANs; f is the fuel of every public address.
  unfoldable pub build_parts :
      ℕ → SizeProfile → Basics → List User → List Vlan → Draw (Option TemplateData)
  build_parts f prof d users vlans = do
    vrfs ← build_vrfs prof.vrf_count
    interfaces ← build_interfaces prof vlans vrfs
    subinterfaces ← build_subinterfaces prof vrfs
    acls ← build_acls prof
    then_draw (if_part prof.has_ospf (do p ← build_ospf prof; give (some p))) λ ospf.
        then_draw (if_part prof.has_bgp (build_bgp f prof d.local_asn)) λ bgp. (do
          routes ← build_static_routes prof vrfs
          lists ← build_prefix_lists prof
          maps ← build_route_maps prof
          then_draw (if_part prof.has_crypto (build_crypto_maps f prof)) λ crypto. give (
              some (record {
                basics = d;
                users = users;
                interfaces = interfaces;
                subinterfaces = subinterfaces;
                vlans = vlans;
                acls = acls;
                ospf = ospf;
                bgp = bgp;
                static_routes = routes;
                prefix_lists = lists;
                route_maps = maps;
                vrfs = vrfs;
                crypto_maps = or_nothing crypto;
                qos_class_maps = if prof.has_qos then class_maps else [];
                qos_policy_maps = if prof.has_qos then wan_policy_map ∷ [] else [];
              })))

  -- The draws of `buildDeviceData`; f is the fuel of every VLAN and every public address too.
  unfoldable pub build_data : ℕ → ℕ → Bytes → Draw (Option TemplateData)
  unfolding build_basics build_parts size_of
  build_data f index bucket = do
    d ← build_basics index bucket
    n ← intn 5
    users ← build_users (1 + n) username
    then_draw (build_vlans f (size_of bucket).vlan_count)
        λ vlans. build_parts f (size_of bucket) d users vlans

  -- `buildDeviceData`.
  unfoldable pub build_device_data : (ℕ → Rng) → ℕ → ℕ → Bytes → Option TemplateData
  unfolding build_data
  build_device_data new_source f index bucket =
      (build_data f index bucket (device_rand new_source cfg.seed index)).0
