-- ===== src/CmdFiles/Cache.antt =====
-- The caches of `cmdFiles`: what they hold.
use rconfig_sim.CmdFiles.{
  command_slug, has_separator, refused, host_files, find_file, is_listed, read_cached, lookup_name,
  lookup, Disk, CmdFiles,
}
use rconfig_sim.Base.{
  Bool-cases, Option-cases, All, Bytes, codes, crlf, equal, ◌≡◌, refl, inl, inr, true, false, ◌&&◌,
  ◌||◌, Option, none, some, List, [], ◌∷◌, ◌++◌, arith,
}
use rconfig_sim.CmdFiles.LineEnds.{Paired, to_crlf-Paired}
use rconfig_sim.Text.{has_prefix, has_suffix}

-- A name that cannot lead out of its folder.
abbrev pub IsSafe : Bytes → Type 0
IsSafe name = (has_separator name ≡ false) × (has_prefix name (b'.' ∷ []) ≡ false)

-- Text that a client can be served.
abbrev pub IsServable : Bytes → Type 0
IsServable b = (has_suffix b crlf ≡ true) × Paired false b

abbrev pub IsCached : Option CmdFiles → Type 0
IsCached none = Unit
IsCached (some c) = All (λ (f : (Bytes × Bytes) × Bytes). IsSafe f.0.1 × IsServable f.1) c.files

abbrev pub IsFound : Option Bytes → Type 0
IsFound none = Unit
IsFound (some b) = IsServable b

has_separator-append : (s t : Bytes) → has_separator (s ++ t) ≡ (has_separator s || has_separator t)
unfolding has_separator
has_separator-append [] t = refl
has_separator-append (c ∷ s) t = ground (arith, has_separator-append s t)

refused-IsSafe : (slug : Bytes) → refused slug ≡ false → IsSafe (slug ++ codes ".txt")
unfolding refused has_prefix equal
refused-IsSafe [] h = absurd (ground arith)
refused-IsSafe (c ∷ slug) h =
    let t : has_separator (codes ".txt") ≡ false = unfold has_separator in refl in
    (rw (has_separator-append (c ∷ slug) (codes ".txt")) (ground arith), ground arith)

find_file-IsFound :
    (host name : Bytes) (files : List ((Bytes × Bytes) × Bytes))
    → All (λ (f : (Bytes × Bytes) × Bytes). IsSafe f.0.1 × IsServable f.1) files
    → IsFound (find_file host name files)
unfolding find_file
find_file-IsFound host name [] h = tt
find_file-IsFound host name (((k, n), b) ∷ more) h =
    elim (Bool-cases (equal k host && equal n name)) [
      | inl t ↦ rw t h.0.1
      | inr t ↦ rw t (find_file-IsFound host name more h.1)
    ]

read_cached-IsCached :
    (disk : Disk) (host name : Bytes) (c : CmdFiles)
    → IsSafe name
    → IsCached (some c)
    → IsFound (read_cached disk host name c).0 × IsCached (some (read_cached disk host name c).1)
unfolding read_cached
read_cached-IsCached disk host name c s h = elim (Option-cases (find_file host name c.files)) [
  | inl e ↦ elim (Option-cases (disk.read_file host name)) [
    | inl f ↦ rw (e, f, read_cached) (tt, h)
    | inr (raw, f) ↦
        let (a, b, _) = to_crlf-Paired raw in rw (e, f, read_cached) ((a, b), ((s, (a, b)), h))
  ]
  | inr (b, e) ↦
      let k = find_file-IsFound host name c.files h in rw (e, read_cached) ((rw e at k), h)
]

host_files_files :
    (disk : Disk) (host : Bytes) (c : CmdFiles) → (host_files disk host c).1.files ≡ c.files
unfolding host_files
host_files_files disk host c = ground arith

lookup_name-IsCached :
    (disk : Disk) (host name : Bytes) (c : CmdFiles)
    → IsSafe name
    → IsCached (some c)
    → IsFound (lookup_name disk host name c).0 × IsCached (some (lookup_name disk host name c).1)
unfolding lookup_name
lookup_name-IsCached disk host name c s h =
    let (names, d) = host_files disk host c in
    let k : IsCached (some d) = rw (host_files_files disk host c) h in
    elim (Bool-cases (is_listed name names)) [
      | inl t ↦ rw (t, lookup_name) (read_cached-IsCached disk host name d s k)
      | inr t ↦ rw (t, lookup_name) (tt, k)
    ]

-- Every file that was ever read has a name without a path separator that does not begin with a dot,
-- and what the caches hold and a lookup answers ends with CRLF and has no bare line feed; a lookup
-- keeps that, whatever is on the disk.
pub lookup-IsCached :
    (disk : Disk) (host typed_line : Bytes) (c : Option CmdFiles)
    → IsCached c
    → IsFound (lookup disk host typed_line c).0 × IsCached (lookup disk host typed_line c).1
unfolding lookup
lookup-IsCached disk host typed_line none h = (tt, tt)
lookup-IsCached disk host typed_line (some c) h =
    elim (Bool-cases (refused (command_slug typed_line))) [
      | inl r ↦ rw (r, lookup) (tt, h)
      | inr r ↦
          rw (r, lookup)
            (lookup_name-IsCached disk host (command_slug typed_line ++ codes ".txt") c
              (refused-IsSafe (command_slug typed_line) r) h)
    ]
