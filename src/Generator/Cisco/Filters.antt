-- ===== src/Generator/Cisco/Filters.antt =====
-- internal/configs/build.go: `buildPrefixLists` and `buildRouteMaps`.
pub mod Bounds
use rconfig_sim.Base.{
  ◌==◌, if◌then◌else◌, length, get_or, Bytes, codes, ℕ, ◌+◌, ◌-◌, ◌*◌, ◌%◌, Bool, List, [], ◌∷◌,
  ◌++◌,
}
use rconfig_sim.Generator.Random.{Draw, ◌>>=◌, give}
use rconfig_sim.Generator.Draws.{chance, chance_if, draw_each, one_at_least}
use rconfig_sim.Generator.Cisco.Size.{SizeProfile}
use rconfig_sim.Text.{fields}
use rconfig_sim.Text.Decimal.{decimal, decimal_padded}
use rconfig_sim.Fault.{intn}

pub record PrefixListEntry : Type 0 where
  pub seq : ℕ
  pub action : Bytes
  pub prefix : Bytes
  pub ge : ℕ
  pub le : ℕ

pub record PrefixList : Type 0 where
  pub name : Bytes
  pub description : Bytes
  pub entries : List PrefixListEntry

pub record RouteMapEntry : Type 0 where
  pub seq : ℕ
  pub action : Bytes
  pub match_clauses : List Bytes
  pub set_clauses : List Bytes

pub record RouteMap : Type 0 where
  pub name : Bytes
  pub entries : List RouteMapEntry

abbrev pub permit : Bytes
permit = codes "permit"

abbrev pub deny_action : Bytes
deny_action = codes "deny"

unfoldable pub prefix_list_name : ℕ → Bytes
prefix_list_name i =
    (if i % 3 == 1 then codes "PL-OUT-" else if i % 3 == 2 then codes "PL-ANY-" else codes "PL-IN-")
    ++ decimal_padded 2 i

unfoldable pub prefix_list_entry : ℕ → Draw PrefixListEntry
prefix_list_entry s = do
  p ← intn 8
  let len = 16 + p
  a ← intn 256
  b ← intn 256
  more ← intn (32 - len + 1)
  refused ← chance 10
  give (record {
    seq = 10 + s * 5;
    action = if refused then deny_action else permit;
    prefix = decimal a ++ (b'.' ∷ (decimal b ++ (codes ".0.0/" ++ decimal len)));
    ge = len;
    le = len + more;
  })

unfoldable pub build_prefix_list : SizeProfile → ℕ → Draw PrefixList
unfolding prefix_list_name prefix_list_entry
build_prefix_list prof i = do
  k ← intn (prof.prefix_list_entries_max - prof.prefix_list_entries_min + 1)
  let entries = prof.prefix_list_entries_min + k
  es ← draw_each prefix_list_entry 0 entries
  give (record {
    name = prefix_list_name i;
    description =
        codes "autogen "
        ++ (prefix_list_name i ++ (codes " (" ++ (decimal entries ++ codes " entries)")));
    entries = es;
  })

-- `buildPrefixLists`, of a size whose minimum is not above its maximum.
unfoldable pub build_prefix_lists : SizeProfile → Draw (List PrefixList)
unfolding build_prefix_list
build_prefix_lists prof = draw_each (build_prefix_list prof) 0 prof.prefix_list_count

abbrev pub route_map_names : List Bytes
route_map_names =
    fields (codes "RM-IN- RM-OUT- STATIC-TO-OSPF- STATIC-TO-BGP- LOCAL-PREF- AS-PATH-")

unfoldable pub route_map_name : ℕ → Bytes
route_map_name i = get_or route_map_names (i % length route_map_names) [] ++ decimal_padded 2 i

unfoldable pub community_clause : Bool → Draw (List Bytes)
community_clause b =
    if b
    then (do
      k ← intn 100
      n ← intn 1000
      give ((codes "community " ++ (decimal (64500 + k) ++ (b':' ∷ decimal n))) ∷ []))
    else give []

unfoldable pub as_path_clause : Bool → Draw (List Bytes)
as_path_clause b =
    if b then (do k ← intn 40; give ((codes "as-path " ++ decimal (10 + k)) ∷ [])) else give []

-- The s-th of n entries.
unfoldable pub route_map_entry : SizeProfile → ℕ → ℕ → Draw RouteMapEntry
unfolding community_clause as_path_clause
route_map_entry prof n s = do
  refused ← chance_if (s == n - 1) 5
  pref ← intn 200
  tagged ← chance 3
  community ← community_clause tagged
  filtered ← chance 4
  as_path ← as_path_clause filtered
  give (record {
    seq = 10 + s * 10;
    action = if refused then deny_action else permit;
    match_clauses =
        (codes "ip address prefix-list PL-IN-"
          ++ decimal_padded 2 (s % one_at_least prof.prefix_list_count))
        ∷ as_path;
    set_clauses = (codes "local-preference " ++ decimal (100 + pref)) ∷ community;
  })

unfoldable pub build_route_map : SizeProfile → ℕ → Draw RouteMap
unfolding route_map_name route_map_entry
build_route_map prof i = do
  k ← intn 3
  es ← draw_each (route_map_entry prof (2 + k)) 0 (2 + k)
  give (record { name = route_map_name i; entries = es })

-- `buildRouteMaps`.
unfoldable pub build_route_maps : SizeProfile → Draw (List RouteMap)
unfolding build_route_map
build_route_maps prof = draw_each (build_route_map prof) 0 prof.route_map_count
