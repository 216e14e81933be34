-- ===== src/Generator/Cisco/Policies.antt =====
-- internal/configs/build.go: `buildCryptoMaps` and `buildQoS`.
use rconfig_sim.Base.{
  if◌then◌else◌, Bytes, codes, ℕ, ◌+◌, ◌*◌, Option, none, some, List, [], ◌∷◌, ◌++◌,
}
use rconfig_sim.Generator.Random.{Draw, ◌>>=◌, give, random_public_ip}
use rconfig_sim.Generator.Draws.{draw_each}
use rconfig_sim.Generator.Cisco.Size.{SizeProfile}
use rconfig_sim.Text.Decimal.{decimal_padded}

pub record CryptoMap : Type 0 where
  pub name : Bytes
  pub seq : ℕ
  pub peer_ip : Bytes
  pub acl : Bytes
  pub transform_set : Bytes
  pub pfs : Bytes
  pub lifetime_sec : ℕ

-- A list whose elements were all drawn.
abbrev pub all_drawn {ℓ} : {A : Type ℓ} → List (Option A) → Option (List A)
all_drawn [] = some []
all_drawn (none ∷ xs) = none
all_drawn (some x ∷ xs) = elim (all_drawn xs) [ none ↦ none | some ys ↦ some (x ∷ ys) ]

unfoldable pub crypto_map : ℕ → ℕ → Draw (Option CryptoMap)
crypto_map f i = do
  drawn ← random_public_ip f
  give (elim drawn [
    | none ↦ none
    | some ip ↦ some (record {
      name = codes "VPN-MAP";
      seq = 10 + i * 10;
      peer_ip = ip;
      acl = codes "CRYPTO-ACL-" ++ decimal_padded 2 i;
      transform_set = codes "AES256-SHA";
      pfs = codes "group14";
      lifetime_sec = 3600;
    })
  ])

-- `buildCryptoMaps`; f is the fuel of every public address.
unfoldable pub build_crypto_maps : ℕ → SizeProfile → Draw (Option (List CryptoMap))
unfolding crypto_map
build_crypto_maps f prof = do
  maps ← draw_each (crypto_map f) 0 (if prof.has_vrf then 4 else 2)
  give (all_drawn maps)

pub record QosClassMap : Type 0 where
  pub name : Bytes
  pub match_clauses : List Bytes

pub record QosPolicyClass : Type 0 where
  pub name : Bytes
  pub priority : ℕ
  pub bandwidth : ℕ
  pub marking_dscp : Bytes
  pub police_bps : ℕ

pub record QosPolicyMap : Type 0 where
  pub name : Bytes
  pub classes : List QosPolicyClass

abbrev class_map : Bytes → Bytes → QosClassMap
class_map name dscp = record { name = name; match_clauses = (codes "ip dscp " ++ dscp) ∷ [] }

abbrev shared_class : Bytes → ℕ → Bytes → QosPolicyClass
shared_class name bandwidth dscp = record {
  name = name;
  priority = 0;
  bandwidth = bandwidth;
  marking_dscp = dscp;
  police_bps = 0;
}

-- `buildQoS`, which draws nothing.
abbrev pub class_maps : List QosClassMap
class_maps =
    class_map (codes "VOICE") (codes "ef")
    ∷ class_map (codes "VIDEO") (codes "af41")
    ∷ class_map (codes "CRITICAL") (codes "af31")
    ∷ class_map (codes "BULK") (codes "af11")
    ∷ class_map (codes "SCAVENGER") (codes "cs1")
    ∷ []

abbrev pub wan_policy_map : QosPolicyMap
wan_policy_map = record {
  name = codes "WAN-OUT-POLICY";
  classes =
      record (shared_class (codes "VOICE") 0 (codes "ef")) { priority = 30 }
      ∷ shared_class (codes "VIDEO") 25 (codes "af41")
      ∷ shared_class (codes "CRITICAL") 20 (codes "af31")
      ∷ shared_class (codes "BULK") 15 (codes "af11")
      ∷ shared_class (codes "SCAVENGER") 1 (codes "cs1")
      ∷ record (shared_class (codes "class-default") 9 []) { police_bps = 10000000 }
      ∷ [];
}
