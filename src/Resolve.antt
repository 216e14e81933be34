-- ===== src/Resolve.antt =====
-- internal/sshsrv/dispatch.go: the dispatch table and `ResolveCommand`.
pub mod Rows
pub mod Sound
pub mod Canonical
pub mod Case
use rconfig_sim.Base.{
  ltb, ◌==◌, if◌then◌else◌, length, Bytes, codes, equal, Bool, true, false, ◌&&◌, ◌||◌, Option,
  none, some, List, [], ◌∷◌, map,
}
use rconfig_sim.Command.{
  same, Command, unknown, empty, ambiguous, terminal_length, terminal_pager, enable, show_version,
  show_running_config, show_startup_config, show_inventory, exit,
}
use rconfig_sim.Text
use rconfig_sim.Text.{to_lower, trim_space, has_prefix, fields}

-- `cmdSpec`.
pub record Spec : Type 0 where
  pub canonical : Bytes
  pub tokens : List Bytes
  pub cmd : Command

abbrev entries : List (Bytes × Command)
entries =
    (codes "terminal length 0", terminal_length)
    ∷ (codes "terminal pager 0", terminal_pager)
    ∷ (codes "enable", enable)
    ∷ (codes "show version", show_version)
    ∷ (codes "show running-config", show_running_config)
    ∷ (codes "show startup-config", show_startup_config)
    ∷ (codes "show inventory", show_inventory)
    ∷ (codes "exit", exit)
    ∷ (codes "quit", exit)
    ∷ (codes "logout", exit)
    ∷ (codes "end", exit)
    ∷ []

abbrev spec_of : Bytes × Command → Spec
spec_of (s, c) = record { canonical = s; tokens = fields s; cmd = c }

-- `cmdTable`.
unfoldable pub table : List Spec
unfolding fields
table = map spec_of entries

-- The first row with this canonical text.
unfoldable pub find_exact : Bytes → List Spec → Option Spec
find_exact s [] = none
find_exact s (r ∷ rs) = if equal r.canonical s then some r else find_exact s rs

-- Every user token is a prefix of the row's token at its place; there may be fewer of them.
unfoldable pub tokens_match : List Bytes → List Bytes → Bool
tokens_match [] ts = true
tokens_match (u ∷ us) [] = false
tokens_match (u ∷ us) (t ∷ ts) = has_prefix t u && tokens_match us ts

-- The rows that are not skipped for having fewer tokens than the user typed, and match.
unfoldable pub matches : List Bytes → List Spec → List Spec
unfolding tokens_match
matches us [] = []
matches us (r ∷ rs) =
    let rest = matches us rs in
    if ltb (length r.tokens) (length us)
    then rest
    else if tokens_match us r.tokens
    then r ∷ rest
    else rest

abbrev has_cmd : Command → List Command → Bool
has_cmd c [] = false
has_cmd c (d ∷ ds) = same c d || has_cmd c ds

-- `seen`: the commands of the rows, each once.
unfoldable pub seen_cmds : List Spec → List Command
seen_cmds [] = []
seen_cmds (r ∷ rs) = let seen = seen_cmds rs in if has_cmd r.cmd seen then seen else r.cmd ∷ seen

-- `switch len(matches)`.
unfoldable pub choose : List Bytes → List Spec → Command × Bytes
unfolding seen_cmds
choose us [] = (unknown, [])
choose us (r ∷ []) =
    if ltb (length us) (length r.tokens) then (unknown, []) else (r.cmd, r.canonical)
choose us (r ∷ q ∷ rs) =
    if length (seen_cmds (r ∷ q ∷ rs)) == 1 then (r.cmd, r.canonical) else (ambiguous, [])

resolve_normalized : Bytes → Command × Bytes
resolve_normalized s = elim (find_exact s table) [
  | some r ↦ (r.cmd, r.canonical)
  | none ↦ choose (fields s) (matches (fields s) table)
]

-- `ResolveCommand`.
unfoldable pub resolve : Bytes → Command × Bytes
unfolding resolve_normalized
resolve input =
    let trimmed = trim_space input in
    if equal trimmed [] then (empty, []) else resolve_normalized (to_lower trimmed)
