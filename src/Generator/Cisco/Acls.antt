-- ===== src/Generator/Cisco/Acls.antt =====
-- internal/configs/build.go: `buildACLs`.
use rconfig_sim.Base.{
  ◌==◌, if◌then◌else◌, Bytes, codes, equal, ℕ, ◌+◌, ◌-◌, ◌*◌, ◌%◌, Bool, ◌||◌, List, [], ◌∷◌, ◌++◌,
}
use rconfig_sim.Generator.Random.{Draw, ◌>>=◌, give, pick, quad, random_rfc1918}
use rconfig_sim.Generator.Address.{wildcard_for}
use rconfig_sim.Generator.Draws.{chance, draw_each}
use rconfig_sim.Generator.Cisco.Size.{SizeProfile}
use rconfig_sim.Text.{split, join, fields}
use rconfig_sim.Text.Decimal.{decimal, decimal_padded}
use rconfig_sim.Fault.{intn}

pub record AclEntry : Type 0 where
  pub seq : ℕ
  pub action : Bytes
  pub protocol : Bytes
  pub source : Bytes
  pub dest : Bytes
  pub extra : Bytes

pub record Acl : Type 0 where
  pub name : Bytes
  pub remark : Bytes
  pub entries : List AclEntry

-- `randomRFC1918Network`.
unfoldable pub random_network : Draw Bytes
unfolding quad
random_network = do
  block ← intn 3
  if block == 0
      then (do b ← intn 256; c ← intn 256; give (quad 10 b c 0))
      else if block == 1
      then (do b ← intn 16; c ← intn 256; give (quad 172 (16 + b) c 0))
      else (do c ← intn 256; give (quad 192 168 c 0))

unfoldable pub network_of : ℕ → Draw Bytes
unfolding random_network
network_of prefix = do net ← random_network; give (net ++ (b' ' ∷ wildcard_for prefix))

-- `aclAddrSpec`.
unfoldable pub acl_addr_spec : Draw Bytes
unfolding network_of
acl_addr_spec = do
  kind ← intn 7
  if kind == 0
      then give (codes "any")
      else if kind == 1 || kind == 2
      then (do ip ← random_rfc1918; give (codes "host " ++ ip))
      else network_of
          (if kind == 3 then 24 else if kind == 4 then 22 else if kind == 5 then 16 else 28)

abbrev pub acl_protocols : List Bytes
acl_protocols = fields (codes "tcp tcp udp udp ip icmp")

abbrev pub acl_actions : List Bytes
acl_actions = fields (codes "permit permit permit permit deny")

abbrev pub port_extras : List Bytes
port_extras =
    split
      (codes
        "eq 22,eq 80,eq 443,eq 53,eq 123,eq 161,range 1024 65535,gt 1024,lt 1024,eq 25,eq 587,eq 3389,eq 8080,eq 8443,eq 5060,eq 1812,eq 1813,eq 389,eq 636,eq 445,range 49152 65535,eq 443 established,gt 32768")
      b','

abbrev pub sticky_extras : List Bytes
sticky_extras =
    split
      (codes
        "log,log-input,fragments,established,dscp ef,dscp af41,dscp cs1,precedence critical,precedence flash")
      b','

-- A word, on a condition.
abbrev pub word_if : Bool → List Bytes → Draw (List Bytes)
word_if b words = if b then (do w ← pick words; give (w ∷ [])) else give []

unfoldable pub acl_entry : ℕ → Draw AclEntry
unfolding acl_addr_spec
acl_entry s = do
  action ← pick acl_actions
  proto ← pick acl_protocols
  source ← acl_addr_spec
  dest ← acl_addr_spec
  ports ← word_if (equal proto (codes "tcp") || equal proto (codes "udp")) port_extras
  sticky ← chance 3
  more ← word_if sticky sticky_extras
  give (record {
    seq = 10 + s * 10;
    action = action;
    protocol = proto;
    source = source;
    dest = dest;
    extra = join (ports ++ more) (codes " ");
  })

unfoldable pub acl_name : ℕ → Bytes
acl_name i =
    (if i % 4 == 1
      then codes "ACL-OUT-"
      else if i % 4 == 2
      then codes "ACL-DMZ-"
      else if i % 4 == 3
      then codes "ACL-MGMT-"
      else codes "ACL-IN-")
    ++ decimal_padded 2 i

-- The entry behind the others.
unfoldable pub last_entry : ℕ → AclEntry
last_entry entries = record {
  seq = 10 + entries * 10;
  action = codes "deny";
  protocol = codes "ip";
  source = codes "any";
  dest = codes "any";
  extra = codes "log";
}

unfoldable pub build_acl : SizeProfile → ℕ → Draw Acl
unfolding acl_entry acl_name last_entry
build_acl prof i = do
  k ← intn (prof.acl_entries_max - prof.acl_entries_min + 1)
  let entries = prof.acl_entries_min + k
  es ← draw_each acl_entry 0 entries
  give (record {
    name = acl_name i;
    remark =
        codes "auto-generated " ++ (decimal entries ++ (codes "-entry ACL for " ++ acl_name i));
    entries = es ++ (last_entry entries ∷ []);
  })

-- `buildACLs`, of a size whose minimum is not above its maximum.
unfoldable pub build_acls : SizeProfile → Draw (List Acl)
unfolding build_acl
build_acls prof = draw_each (build_acl prof) 0 prof.acl_count
