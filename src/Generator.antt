-- ===== src/Generator.antt =====
-- internal/configs/generator.go: how many devices of each model a run makes, and where each stands.
pub mod Address
pub mod Counts
pub mod Distribution
pub mod Gateway
pub mod Manifest
pub mod Models
pub mod Places
pub mod OpticalNode
pub mod Random
pub mod Run
pub mod Draws
pub mod Cisco
pub mod Shelf
pub mod Shuffle
pub mod Workers
use rconfig_sim.Fault.{intn, Rng}
use rconfig_sim.Base.{
  ltb, leb, ◌==◌, if◌then◌else◌, length, get_or, replicate, ℕ, zero, suc, ◌+◌, ◌-◌, ◌*◌, ◌/◌, ◌%◌,
  Bool, false, Option, none, some, List, [], ◌∷◌, ◌++◌,
}

-- The counts and weights are lists in the order of `modelOrder`.
-- `total * weights[b] / 100` for every model.
unfoldable pub floors : ℕ → List ℕ → List ℕ
floors total [] = []
floors total (w ∷ ws) = total * w / 100 ∷ floors total ws

unfoldable pub sum : List ℕ → ℕ
sum [] = 0
sum (n ∷ ns) = n + sum ns

-- The loop for the model with the highest weight: the first of those that have it. `i` is the place
-- of the head; `none` is `topW == -1`.
unfoldable pub top_from : Option (ℕ × ℕ) → ℕ → List ℕ → Option (ℕ × ℕ)
top_from best i [] = best
top_from none i (w ∷ ws) = top_from (some (i, w)) (i + 1) ws
top_from (some (top, most)) i (w ∷ ws) =
    let kept = top_from (some (top, most)) (i + 1) ws in
    let moved = top_from (some (i, w)) (i + 1) ws in if ltb most w then moved else kept

-- `counts[top] += rem`.
unfoldable pub add_at : ℕ → ℕ → List ℕ → List ℕ
add_at i rem [] = []
add_at zero rem (n ∷ ns) = (n + rem) ∷ ns
add_at (suc i) rem (n ∷ ns) = n ∷ add_at i rem ns

-- `stratifiedCounts`. With no weights the remainder would go to a key that is no model's.
unfoldable pub stratified_counts : ℕ → List ℕ → List ℕ
unfolding floors sum top_from add_at
stratified_counts total weights =
    let counts = floors total weights in
    let rem = total - sum counts in
    if ltb 0 rem
    then elim (top_from none 0 weights) [ none ↦ counts | some (top, most) ↦ add_at top rem counts ]
    else counts

-- Every model as often as its count, in order.
unfoldable pub assignments_from : ℕ → List ℕ → List ℕ
assignments_from model [] = []
assignments_from model (n ∷ ns) = replicate n model ++ assignments_from (model + 1) ns

unfoldable pub set_at : ℕ → ℕ → List ℕ → List ℕ
set_at i v [] = []
set_at zero v (x ∷ xs) = v ∷ xs
set_at (suc i) v (x ∷ xs) = x ∷ set_at i v xs

-- `out[i], out[j] = out[j], out[i]`.
unfoldable pub swap : ℕ → ℕ → List ℕ → List ℕ
unfolding set_at
swap i j xs = set_at j (get_or xs i 0) (set_at i (get_or xs j 0) xs)

-- `rng.Shuffle`, from the index i down: each place is swapped with one drawn among those up to it.
unfoldable pub shuffle_from : ℕ → Rng → List ℕ → List ℕ
unfolding swap
shuffle_from zero r xs = xs
shuffle_from (suc i) r xs =
    let (j, later) = intn (i + 2) r in shuffle_from i later (swap (i + 1) j xs)

-- `buildAssignments`, a model being its place in `modelOrder`.
unfoldable pub build_assignments : List ℕ → Rng → List ℕ
unfolding assignments_from shuffle_from
build_assignments counts r =
    let out = assignments_from 0 counts in shuffle_from (length out - 1) r out

-- Where the i-th device stands: `i / DevicesPerIP` addresses past the base, on the port
-- `PortStart + i % DevicesPerIP`.
unfoldable pub place : ℕ → ℕ → ℕ → ℕ × ℕ
place devices_per_ip port_start i = (i / devices_per_ip, port_start + i % devices_per_ip)

-- The checks at the beginning of `Run`.
unfoldable pub fits : ℕ → ℕ → ℕ → Bool
fits count ip_count devices_per_ip =
    if count == 0
    then false
    else if devices_per_ip == 0
    then false
    else if ip_count == 0
    then false
    else leb count (ip_count * devices_per_ip)
