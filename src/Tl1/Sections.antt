-- ===== src/Tl1/Sections.antt =====
-- internal/sshsrv/tl1.go: `indexSections`. Slices are by their offsets in the data.
pub mod Lines
pub mod RoundTrip
use rconfig_sim.Base.{
  ◌==◌, if◌then◌else◌, length, take, drop, Bytes, equal, ℕ, suc, ◌+◌, ◌-◌, Bool, true, ◌&&◌, Option,
  none, some, List, [], ◌∷◌, map,
}
use mathlib.Core.Option
use rconfig_sim.Text.{to_upper, trim_space, has_prefix}

-- `bytes.IndexByte`.
unfoldable pub index_byte : Bytes → ℕ → Option ℕ
index_byte [] b = none
index_byte (c ∷ s) b = let rest = index_byte s b in if c == b then some 0 else Option.map suc rest

pub record Bound : Type 0 where
  pub tid : Bytes
  pub body_start : ℕ
  pub line : ℕ

-- The bound of a marker at offset `i`, where `s` is `data[i:]` and `n` is `len(data)`.
unfoldable pub bound_at : Bytes → ℕ → ℕ → Bytes → Bound
bound_at marker n i s = elim (index_byte s b'\n') [
  | none ↦ record { tid = to_upper (trim_space (drop (length marker) s)); body_start = n; line = i }
  | some nl ↦ record {
    tid = to_upper (trim_space (take (nl - length marker) (drop (length marker) s)));
    body_start = i + nl + 1;
    line = i;
  }
]

-- The loop over the offsets, at `data[i:]`; the flag tells whether a line starts there.
unfoldable pub bounds_from : Bytes → ℕ → Bool → ℕ → Bytes → List Bound
bounds_from marker n at_start i [] = []
bounds_from marker n at_start i (c ∷ s) =
    let rest = bounds_from marker n (c == b'\n') (i + 1) s in
    if at_start && has_prefix (c ∷ s) marker then bound_at marker n i (c ∷ s) ∷ rest else rest

-- `data[from:to]`.
abbrev pub slice : Bytes → ℕ → ℕ → Bytes
slice s from to = take (to - from) (drop from s)

-- The offset at which the section of the first of these bounds ends.
abbrev section_end : ℕ → List Bound → ℕ
section_end n [] = n
section_end n (b ∷ bs) = b.line

-- The sections in file order, those with no TID left out.
unfoldable pub sections_of : Bytes → List Bound → List (Bytes × Bytes)
sections_of data_bytes [] = []
sections_of data_bytes (b ∷ bs) =
    let rest = sections_of data_bytes bs in
    if equal b.tid []
    then rest
    else (b.tid, slice data_bytes b.body_start (section_end (length data_bytes) bs)) ∷ rest

-- The map is read through `find_section`: a later section with the same TID replaces an earlier one.
pub record Sections : Type 0 where
  pub local_eqpt : Bytes
  pub remote_eqpt : List (Bytes × Bytes)
  pub order : List Bytes

unfoldable pub find_section : Bytes → List (Bytes × Bytes) → Option Bytes
find_section tid [] = none
find_section tid ((t, body) ∷ more) = elim (find_section tid more) [
  | some later ↦ some later
  | none ↦ if equal t tid then some body else none
]

sections_at : Bytes → List Bound → Sections
unfolding sections_of
sections_at data_bytes [] = record { local_eqpt = data_bytes; remote_eqpt = []; order = [] }
sections_at data_bytes (b ∷ bs) =
    let sections = sections_of data_bytes (b ∷ bs) in
    record {
      local_eqpt = take b.line data_bytes;
      remote_eqpt = sections;
      order = map (λ (s : Bytes × Bytes). s.0) sections;
    }

-- `indexSections`.
unfoldable pub index_sections : Bytes → Bytes → Sections
unfolding bounds_from sections_at
index_sections data_bytes marker =
    sections_at data_bytes (bounds_from marker (length data_bytes) true 0 data_bytes)
