-- ===== src/CmdFiles/Stable.antt =====
-- internal/sshsrv/cmdfiles.go: what `lookup` gives on a later call, through its two caches.
use rconfig_sim.CmdFiles.{
  command_slug, refused, find_names, host_files, find_file, is_listed, read_cached, lookup_name,
  lookup, Disk, CmdFiles,
}
use rconfig_sim.Base.{
  Bool-cases, Option-cases, Bytes, codes, equal_refl, ◌≡◌, refl, ap, ◌∙◌, inl, inr, true, false,
  Option, none, some, List, ◌++◌, arith,
}

host_files_known :
    (disk : Disk) (host : Bytes) (c : CmdFiles)
    → find_names host (host_files disk host c).1.dirs ≡ some (host_files disk host c).0
unfolding host_files
host_files_known disk host c = elim (Option-cases (find_names host c.dirs)) [
  | inl e ↦ rw (e, host_files) (unfold find_names in rw (equal_refl host) refl)
  | inr (names, e) ↦ rw (e, host_files) e
]

read_cached_known :
    (disk : Disk) (host name b : Bytes) (c : CmdFiles)
    → (read_cached disk host name c).0 ≡ some b
    → (find_file host name (read_cached disk host name c).1.files ≡ some b)
      × ((read_cached disk host name c).1.dirs ≡ c.dirs)
unfolding read_cached find_file
read_cached_known disk host name b c h = elim (Option-cases (find_file host name c.files)) [
  | inl e ↦ elim (Option-cases (disk.read_file host name)) [
    | inl f ↦ ground arith
    | inr (raw, f) ↦ ground (arith, equal_refl host, equal_refl name)
  ]
  | inr (d, e) ↦ ground arith
]

-- From caches that know the folder and the file, any disk gives the file.
lookup_name_known :
    (disk : Disk) (host name b : Bytes) (names : List Bytes) (c : CmdFiles)
    → find_names host c.dirs ≡ some names
    → is_listed name names ≡ true
    → find_file host name c.files ≡ some b
    → (lookup_name disk host name c).0 ≡ some b
unfolding lookup_name host_files read_cached
lookup_name_known disk host name b names c d l f = ground arith

lookup_name_again :
    (disk later : Disk) (host name b : Bytes) (c : CmdFiles)
    → (lookup_name disk host name c).0 ≡ some b
    → (lookup_name later host name (lookup_name disk host name c).1).0 ≡ some b
unfolding lookup_name
lookup_name_again disk later host name b c h =
    let (names, d) = host_files disk host c in
    let k = host_files_known disk host c in
    elim (Bool-cases (is_listed name names)) [
      | inl t ↦
          let q : lookup_name disk host name c ≡ read_cached disk host name d =
            rw (t, lookup_name) refl in
          let r : (read_cached disk host name d).0 ≡ some b = rw q at h in
          let (f, g) = read_cached_known disk host name b d r in
          let e = read_cached disk host name d in
          let known : find_names host e.1.dirs ≡ some names =
            ap (λ (x : List (Bytes × List Bytes)). find_names host x) g ∙ k in
          ap (λ (x : Option Bytes × CmdFiles). (lookup_name later host name x.1).0) q
          ∙ lookup_name_known later host name b names e.1 known t f
      | inr t ↦
          let q : lookup_name disk host name c ≡ (none, d) = rw (t, lookup_name) refl in
          let r : none ≡ some b = rw q at h in absurd (ground arith)
    ]

lookup_file :
    (disk : Disk) (host typed_line : Bytes) (c : CmdFiles)
    → refused (command_slug typed_line) ≡ false
    → lookup disk host typed_line (some c) ≡ (
        let got = lookup_name disk host (command_slug typed_line ++ codes ".txt") c in
        (got.0, some got.1))
unfolding lookup
lookup_file disk host typed_line c r = rw (r, lookup) refl

-- A command that was answered from a file is answered with the same text from then on, whatever
-- becomes of the files on the disk.
pub lookup_again :
    (disk later : Disk) (host typed_line b : Bytes) (c : Option CmdFiles)
    → (lookup disk host typed_line c).0 ≡ some b
    → (lookup later host typed_line (lookup disk host typed_line c).1).0 ≡ some b
unfolding lookup
lookup_again disk later host typed_line b none h = absurd (ground arith)
lookup_again disk later host typed_line b (some c) h =
    elim (Bool-cases (refused (command_slug typed_line))) [
      | inl r ↦ absurd (ground arith)
      | inr r ↦
          let name = command_slug typed_line ++ codes ".txt" in
          let q = lookup_file disk host typed_line c r in
          let p = lookup_file later host typed_line (lookup_name disk host name c).1 r in
          let k : (lookup_name disk host name c).0 ≡ some b = rw q at h in
          ap (λ (x : Option Bytes × Option CmdFiles). (lookup later host typed_line x.1).0) q
          ∙ (ap (λ (x : Option Bytes × Option CmdFiles). x.0) p
              ∙ lookup_name_again disk later host name b c k)
    ]
