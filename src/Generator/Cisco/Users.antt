-- ===== src/Generator/Cisco/Users.antt =====
-- internal/configs/build.go: `buildUsers`, `buildVLANs` and `buildVRFs`.
pub mod Fresh
use rconfig_sim.Base.{
  ltb, ◌==◌, if◌then◌else◌, length, get_or, Bytes, codes, ℕ, zero, suc, ◌+◌, ◌/◌, ◌%◌, Bool, false,
  ◌||◌, Option, none, some, List, [], ◌∷◌, ◌++◌,
}
use rconfig_sim.Generator.Random.{Draw, ◌>>=◌, give, pick, pseudo_cisco_md5}
use rconfig_sim.Generator.Draws.{chance, draw_each}
use rconfig_sim.Generator.Gateway.{is_used}
use rconfig_sim.Text.{fields}
use rconfig_sim.Text.Decimal.{decimal, decimal_padded}
use rconfig_sim.Fault.{intn}

pub record User : Type 0 where
  pub name : Bytes
  pub privilege : ℕ
  pub secret_hash : Bytes

pub record Vlan : Type 0 where
  pub id : ℕ
  pub name : Bytes

pub record Vrf : Type 0 where
  pub name : Bytes
  pub rd : Bytes
  pub rt_import : List Bytes
  pub rt_export : List Bytes

abbrev pub role_names : List Bytes
role_names = fields (codes "netops readonly support audit helpdesk monitor")

-- A name that is seen gets a digit; the new name is not looked up again.
unfoldable pub user_name : List Bytes → Bytes → Draw Bytes
user_name seen name =
    if is_used name seen then (do k ← intn 9; give (name ++ decimal (1 + k))) else give name

-- The rounds of `buildUsers`.
unfoldable pub more_users : ℕ → List Bytes → Draw (List User)
unfolding user_name
more_users zero seen = give []
more_users (suc left) seen = do
  role ← pick role_names
  name ← user_name seen role
  top ← chance 3
  hash ← pseudo_cisco_md5
  users ← more_users left (name ∷ seen)
  give (record { name = name; privilege = if top then 15 else 1; secret_hash = hash } ∷ users)

-- `buildUsers`.
unfoldable pub build_users : ℕ → Bytes → Draw (List User)
unfolding more_users
build_users n primary = do
  hash ← pseudo_cisco_md5
  users ← more_users n (primary ∷ [])
  give (record { name = primary; privilege = 15; secret_hash = hash } ∷ users)

unfoldable pub is_used_id : ℕ → List ℕ → Bool
is_used_id id [] = false
is_used_id id (k ∷ ks) = k == id || is_used_id id ks

-- The inner loop of `buildVLANs`: it draws until the number is new. `none` where the fuel runs out.
unfoldable pub draw_id : ℕ → List ℕ → Draw (Option ℕ)
unfolding is_used_id
draw_id zero used = give none
draw_id (suc f) used = do
  k ← intn 3990
  let again = draw_id f used
  let found = give (some (10 + k))
  if is_used_id (10 + k) used then again else found

abbrev pub vlan_roles : List Bytes
vlan_roles = fields (
    codes
      "DATA VOICE MGMT GUEST IOT PRINTERS CAMERAS LAB OPS SERVERS DMZ STORAGE BACKUP WIRELESS KIOSK PAYMENTS POS HVAC SECURITY MEDIA VIDEO VOIP CORP SCIENCE TRANSIT TRANSIT-A TRANSIT-B CUST-A CUST-B CUST-C UPLINK PEER INTERNAL EXTERNAL FILTER ROUTER HONEYPOT PRINT SCAN SENSORS INFRA")

unfoldable pub vlan_of : ℕ → ℕ → Draw Vlan
vlan_of i id = do
  k ← intn (length vlan_roles)
  let role = get_or vlan_roles ((i + k) % length vlan_roles) []
  give (record { id = id; name = role ++ (b'-' ∷ decimal_padded 4 id) })

abbrev pub in_front {ℓ} : {A : Type ℓ} → A → Option (List A) → Option (List A)
in_front a none = none
in_front a (some rest) = some (a ∷ rest)

-- The rounds of `buildVLANs`, from the i-th on.
unfoldable pub vlans_from : ℕ → ℕ → ℕ → List ℕ → Draw (Option (List Vlan))
unfolding draw_id vlan_of
vlans_from f i zero used = give (some [])
vlans_from f i (suc left) used = do
  drawn ← draw_id f used
  elim drawn [
    | none ↦ give none
    | some id ↦ (do
      v ← vlan_of i id
      rest ← vlans_from f (i + 1) left (id ∷ used)
      give (in_front v rest))
  ]

-- `buildVLANs`; the number 1 counts as used.
unfoldable pub build_vlans : ℕ → ℕ → Draw (Option (List Vlan))
unfolding vlans_from
build_vlans f n = vlans_from f 0 n (1 ∷ [])

abbrev pub vrf_labels : List Bytes
vrf_labels = fields (
    codes
      "MGMT INTERNET SHARED GUEST DMZ STORAGE IOT VOICE TRANSIT PEER CUST-A CUST-B CUST-C CUST-D LAB PROD DEV QA STAGE PCI HIPAA OOB LEGAL FINANCE HR ENG SALES NOC SOC BACKUP")

unfoldable pub vrf_name : ℕ → Bytes
vrf_name i =
    let label = get_or vrf_labels (i % length vrf_labels) [] in
    if ltb i (length vrf_labels) then label else label ++ (b'-' ∷ decimal (i / length vrf_labels))

unfoldable pub vrf_of : ℕ → ℕ → Vrf
unfolding vrf_name
vrf_of asn i =
    let rd = decimal asn ++ (b':' ∷ decimal (100 + i)) in
    record { name = vrf_name i; rd = rd; rt_import = rd ∷ []; rt_export = rd ∷ [] }

-- `buildVRFs`: nothing is drawn where there is none.
unfoldable pub build_vrfs : ℕ → Draw (List Vrf)
unfolding vrf_of
build_vrfs n =
    if n == 0
    then give []
    else (do k ← intn 500; draw_each (λ (i : ℕ). give (vrf_of (65000 + k) i)) 0 n)
