-- ===== src/Generator/Cisco/Filters/Bounds.antt =====
-- The prefixes of a prefix list have lengths that IPv4 has.
use rconfig_sim.Base.{length, All, ℕ, ◌+◌, ◌-◌, ◌≤◌, ◌≡◌, arith}
use rconfig_sim.Generator.Cisco.Filters.{
  prefix_list_entry, build_prefix_list, build_prefix_lists, PrefixListEntry, PrefixList,
}
use rconfig_sim.Generator.Cisco.Size.{SizeProfile}
use rconfig_sim.Generator.Draws.{length-draw_each, All-draw_each}
use rconfig_sim.Fault.{intn, intn_lt, Rng}

-- `ge` and `le` are lengths of prefixes, in order.
abbrev pub IsRange : PrefixListEntry → Type 0
IsRange e = (16 ≤ e.ge) × (e.ge ≤ e.le) × (e.le ≤ 32)

-- A list of the size's number of entries, all in range.
abbrev pub IsSound : SizeProfile → PrefixList → Type 0
IsSound prof l =
    All IsRange l.entries
    × (prof.prefix_list_entries_min ≤ length l.entries)
    × (length l.entries
        ≤ prof.prefix_list_entries_min
          + (prof.prefix_list_entries_max - prof.prefix_list_entries_min))

prefix_list_entry-IsRange : (s : ℕ) (r : Rng) → IsRange (prefix_list_entry s r).0
unfolding prefix_list_entry
prefix_list_entry-IsRange s r =
    let p = intn 8 r in
    let a = intn 256 p.1 in
    let b = intn 256 a.1 in
    let h = intn_lt 8 r (omega arith) in
    let k = intn_lt (32 - (16 + p.0) + 1) b.1 (omega arith) in
    (omega arith, omega arith, omega arith)

build_prefix_list-IsSound :
    (prof : SizeProfile) (i : ℕ) (r : Rng) → IsSound prof (build_prefix_list prof i r).0
unfolding build_prefix_list
build_prefix_list-IsSound prof i r =
    let top = prof.prefix_list_entries_max - prof.prefix_list_entries_min + 1 in
    let k = intn top r in
    let h = intn_lt top r (omega arith) in
    let n = length-draw_each prefix_list_entry 0 (prof.prefix_list_entries_min + k.0) k.1 in
    (
      All-draw_each IsRange prefix_list_entry prefix_list_entry-IsRange 0
          (prof.prefix_list_entries_min + k.0) k.1,
      omega arith,
      omega arith,
    )

-- Whatever is drawn, a size has its number of prefix lists; each has at least the size's minimum of
-- entries, and at most its maximum where that is not less, and each entry has lengths with
-- 16 ≤ ge ≤ le ≤ 32.
pub build_prefix_lists-IsSound :
    (prof : SizeProfile) (r : Rng)
    → All (IsSound prof) (build_prefix_lists prof r).0
      × (length (build_prefix_lists prof r).0 ≡ prof.prefix_list_count)
unfolding build_prefix_lists
build_prefix_lists-IsSound prof r = (
  All-draw_each (IsSound prof) (build_prefix_list prof) (build_prefix_list-IsSound prof) 0
      prof.prefix_list_count r,
  length-draw_each (build_prefix_list prof) 0 prof.prefix_list_count r,
)
