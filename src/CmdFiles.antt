-- ===== src/CmdFiles.antt =====
-- internal/sshsrv/cmdfiles.go: `cmdFiles`. A `*cmdFiles` is an `Option CmdFiles`: nil is `none`. The
-- path of a file is kept as its folder's hostname and its name; the root is the same for all.
pub mod LineEnds
pub mod Cache
pub mod Stable
use rconfig_sim.Base.{
  ◌==◌, if◌then◌else◌, length, take, Bytes, codes, crlf, equal, ℕ, ◌-◌, Bool, false, ◌&&◌, ◌||◌,
  Option, none, some, List, [], ◌∷◌, ◌++◌, map,
}
use rconfig_sim.Text.{to_lower, trim_space, has_prefix, has_suffix, join, fields}

-- The files under the root: the entries of a device's folder, with whether each is a directory, and
-- the contents of a file in it. `none` is an error.
pub record Disk : Type 0 where
  pub read_dir : Bytes → Option (List (Bytes × Bool))
  pub read_file : Bytes → Bytes → Option Bytes

-- The two caches, as association lists; a folder that is missing has no names.
pub record CmdFiles : Type 0 where
  pub dirs : List (Bytes × List Bytes)
  pub files : List ((Bytes × Bytes) × Bytes)

-- `ReplaceAll(s, " ", "_")`.
abbrev pub underscore : Bytes → Bytes
underscore s = map (λ (c : ℕ). if c == b' ' then b'_' else c) s

abbrev pub no_more : Bytes
no_more = codes "| no-more"

-- `commandSlug`.
unfoldable pub command_slug : Bytes → Bytes
command_slug typed_line =
    let s = join (fields (to_lower typed_line)) (b' ' ∷ []) in
    underscore (if has_suffix s no_more then trim_space (take (length s - length no_more) s) else s)

-- `strings.ContainsAny(s, "/\\")`.
unfoldable pub has_separator : Bytes → Bool
has_separator [] = false
has_separator (c ∷ s) = (c == b'/' || c == b'\\') || has_separator s

-- The slugs that `lookup` refuses.
unfoldable pub refused : Bytes → Bool
refused slug = equal slug [] || has_separator slug || has_prefix slug (b'.' ∷ [])

-- `ReplaceAll(b, "\r\n", "\n")`.
unfoldable pub crlf_to_lf : Bytes → Bytes
crlf_to_lf [] = []
crlf_to_lf (c ∷ []) = c ∷ []
crlf_to_lf (c ∷ d ∷ s) =
    let paired = crlf_to_lf s in
    let single = crlf_to_lf (d ∷ s) in if c == 0x0d && d == 0x0a then 0x0a ∷ paired else c ∷ single

-- `ReplaceAll(b, "\n", "\r\n")`.
unfoldable pub lf_to_crlf : Bytes → Bytes
lf_to_crlf [] = []
lf_to_crlf (c ∷ s) = let rest = lf_to_crlf s in if c == 0x0a then 0x0d ∷ 0x0a ∷ rest else c ∷ rest

-- `toCRLF`.
unfoldable pub to_crlf : Bytes → Bytes
to_crlf b = let s = lf_to_crlf (crlf_to_lf b) in if has_suffix s crlf then s else s ++ crlf

unfoldable pub find_names : Bytes → List (Bytes × List Bytes) → Option (List Bytes)
find_names host [] = none
find_names host ((h, names) ∷ more) =
    let rest = find_names host more in if equal h host then some names else rest

-- The entries that are no directories.
unfoldable pub plain_names : List (Bytes × Bool) → List Bytes
plain_names [] = []
plain_names ((name, is_dir) ∷ more) =
    let rest = plain_names more in if is_dir then rest else name ∷ rest

-- The names of a folder; one that cannot be read has none.
unfoldable pub folder_names : Option (List (Bytes × Bool)) → List Bytes
folder_names none = []
folder_names (some entries) = plain_names entries

-- `hostFiles`.
unfoldable pub host_files : Disk → Bytes → CmdFiles → List Bytes × CmdFiles
unfolding find_names folder_names
host_files disk host c = elim (find_names host c.dirs) [
  | some names ↦ (names, c)
  | none ↦
      let names = folder_names (disk.read_dir host) in
      (names, record c { dirs = (host, names) ∷ c.dirs })
]

unfoldable pub find_file : Bytes → Bytes → List ((Bytes × Bytes) × Bytes) → Option Bytes
find_file host name [] = none
find_file host name (((h, n), b) ∷ more) =
    let rest = find_file host name more in if equal h host && equal n name then some b else rest

unfoldable pub is_listed : Bytes → List Bytes → Bool
is_listed name [] = false
is_listed name (n ∷ names) = equal n name || is_listed name names

-- The read of a file that the folder lists, through the cache.
unfoldable pub read_cached : Disk → Bytes → Bytes → CmdFiles → Option Bytes × CmdFiles
unfolding find_file
read_cached disk host name c = elim (find_file host name c.files) [
  | some b ↦ (some b, c)
  | none ↦ elim (disk.read_file host name) [
    | none ↦ (none, c)
    | some raw ↦ (some (to_crlf raw), record c { files = ((host, name), to_crlf raw) ∷ c.files })
  ]
]

unfoldable pub lookup_name : Disk → Bytes → Bytes → CmdFiles → Option Bytes × CmdFiles
unfolding is_listed
lookup_name disk host name c =
    let (names, d) = host_files disk host c in
    if is_listed name names then read_cached disk host name d else (none, d)

-- `lookup`.
unfoldable pub lookup : Disk → Bytes → Bytes → Option CmdFiles → Option Bytes × Option CmdFiles
lookup disk host typed_line none = (none, none)
lookup disk host typed_line (some c) =
    let slug = command_slug typed_line in
    let (found, d) = lookup_name disk host (slug ++ codes ".txt") c in
    if refused slug then (none, some c) else (found, some d)
