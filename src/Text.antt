-- ===== src/Text.antt =====
-- The functions of Go's `strings` and `bytes` packages that the program calls, on ASCII bytes.
pub mod Case
pub mod Decimal
pub mod Split
use rconfig_sim.Base.{
  leb, ◌==◌, if◌then◌else◌, Bytes, ℕ, ◌+◌, ◌-◌, Bool, true, false, ◌&&◌, ◌||◌, Option, none, some,
  List, [], ◌∷◌, ◌++◌, map, reverse,
}

-- `unicode.IsSpace`, below 0x80.
unfoldable pub is_space : ℕ → Bool
is_space c = (leb 9 c && leb c 13) || c == 32

unfoldable pub lower : ℕ → ℕ
lower c = if leb b'A' c && leb c b'Z' then c + 32 else c

unfoldable pub upper : ℕ → ℕ
upper c = if leb b'a' c && leb c b'z' then c - 32 else c

abbrev pub to_lower : Bytes → Bytes
to_lower = map lower

abbrev pub to_upper : Bytes → Bytes
to_upper = map upper

unfoldable pub trim_left : Bytes → Bytes
trim_left [] = []
trim_left (c ∷ s) = if is_space c then trim_left s else c ∷ s

-- Cuts the trailing spaces: a space stays only in front of something kept.
unfoldable pub trim_right : Bytes → Bytes
trim_right [] = []
trim_right (c ∷ s) = elim (trim_right s) [
  | [] ↦ if is_space c then [] else c ∷ []
  | d ∷ t ↦ c ∷ d ∷ t
]

unfoldable pub trim_space : Bytes → Bytes
unfolding trim_left trim_right is_space
trim_space s = trim_right (trim_left s)

unfoldable pub has_prefix : Bytes → Bytes → Bool
has_prefix s [] = true
has_prefix [] (p ∷ ps) = false
has_prefix (c ∷ s) (p ∷ ps) = c == p && has_prefix s ps

unfoldable pub has_suffix : Bytes → Bytes → Bool
unfolding has_prefix
has_suffix s p = has_prefix (reverse s) (reverse p)

-- Puts a byte in front of the first part.
abbrev push : ℕ → List Bytes → List Bytes
push c [] = (c ∷ []) ∷ []
push c (p ∷ ps) = (c ∷ p) ∷ ps

-- `strings.Split` at a one-byte separator: never empty.
unfoldable pub split : Bytes → ℕ → List Bytes
split [] sep = [] ∷ []
split (c ∷ s) sep = let rest = split s sep in if c == sep then [] ∷ rest else push c rest

unfoldable pub join : List Bytes → Bytes → Bytes
join [] sep = []
join (p ∷ []) sep = p
join (p ∷ q ∷ ps) sep = p ++ (sep ++ join (q ∷ ps) sep)

-- A word goes in front of the fields, unless it is empty.
abbrev flush : Bytes → List Bytes → List Bytes
flush [] fs = fs
flush (c ∷ w) fs = (c ∷ w) ∷ fs

-- The word that the text begins with, and the fields behind it.
unfoldable pub fields_in : Bytes → Bytes × List Bytes
fields_in [] = ([], [])
fields_in (c ∷ s) =
    let (w, fs) = fields_in s in if is_space c then ([], flush w fs) else (c ∷ w, fs)

-- `strings.Fields`.
unfoldable pub fields : Bytes → List Bytes
unfolding fields_in is_space
fields s = let (w, fs) = fields_in s in flush w fs

-- `strings.Cut` at a one-byte separator; `none` where it is not found.
unfoldable pub cut : Bytes → ℕ → Option (Bytes × Bytes)
cut [] sep = none
cut (c ∷ s) sep =
    let rest = cut s sep in
    if c == sep
    then some ([], s)
    else elim rest [ none ↦ none | some (before, after) ↦ some (c ∷ before, after) ]
