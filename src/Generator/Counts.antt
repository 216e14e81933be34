-- ===== src/Generator/Counts.antt =====
-- `stratifiedCounts`: the floors, the remainder, and their sum.
use native.Mathlib.Nat.{mul-add, div-mul-le_self}
use rconfig_sim.Generator.{floors, sum, top_from, add_at, stratified_counts}
use rconfig_sim.Base.{
  lt→ltb, length, ℕ, zero, suc, ◌+◌, ◌-◌, ◌*◌, ◌≤◌, ◌<◌, ◌≡◌, refl, ap, ◌≢◌, inl, inr, Option, none,
  some, List, [], ◌∷◌, arith, ltb_cases,
}

sum-floors_le : (total : ℕ) (ws : List ℕ) → sum (floors total ws) * 100 ≤ total * sum ws
unfolding floors sum
sum-floors_le total [] = omega arith
sum-floors_le total (w ∷ ws) =
    let h = sum-floors_le total ws in
    let d = div-mul-le_self (total * w) 100 in omega (arith, mul-add total w (sum ws), h, d)

top_from_bound :
    (t m i u n : ℕ) (ws : List ℕ)
    → t < i
    → top_from (some (t, m)) i ws ≡ some (u, n)
    → u < i + length ws
unfolding top_from
top_from_bound t m i u n [] h e = ground arith
top_from_bound t m i u n (w ∷ ws) h e =
    ground (arith, top_from_bound t m (i + 1) u n ws, top_from_bound i w (i + 1) u n ws)

top_from_found : (t m i : ℕ) (ws : List ℕ) → top_from (some (t, m)) i ws ≢ none
unfolding top_from
top_from_found t m i [] e = ground arith
top_from_found t m i (w ∷ ws) e =
    ground (arith, top_from_found t m (i + 1) ws, top_from_found i w (i + 1) ws)

sum-add_at : (i rem : ℕ) (ns : List ℕ) → i < length ns → sum (add_at i rem ns) ≡ sum ns + rem
unfolding sum add_at
sum-add_at i rem [] h = absurd (omega arith)
sum-add_at zero rem (n ∷ ns) h = omega arith
sum-add_at (suc i) rem (n ∷ ns) h = omega (arith, sum-add_at i rem ns (omega arith))

length-floors : (total : ℕ) (ws : List ℕ) → length (floors total ws) ≡ length ws
unfolding floors
length-floors total [] = refl
length-floors total (w ∷ ws) = ap suc (length-floors total ws)

-- What the remainder does: it goes to one of the models.
sum-stratified_counts_at :
    (total w : ℕ) (ws : List ℕ) (o : Option (ℕ × ℕ))
    → top_from none 0 (w ∷ ws) ≡ o
    → sum (floors total (w ∷ ws)) ≤ total
    → sum (stratified_counts total (w ∷ ws)) ≡ total
unfolding stratified_counts
sum-stratified_counts_at total w ws none e h =
    absurd (top_from_found 0 w 1 ws (unfold top_from in e))
sum-stratified_counts_at total w ws (some (t, m)) e h =
    let counts = floors total (w ∷ ws) in
    let b : t < 1 + length ws = top_from_bound 0 w 1 t m ws (omega arith) (unfold top_from in e) in
    let l = length-floors total (w ∷ ws) in
    let a = sum-add_at t (total - sum counts) counts (omega arith) in
    elim (ltb_cases 0 (total - sum counts)) [
      | inl p ↦ rw (lt→ltb 0 (total - sum counts) p, e, stratified_counts) (omega arith)
      | inr p ↦ ground arith
    ]

-- If the weights add up to 100, the counts of the models add up to the number of devices.
pub sum-stratified_counts :
    (total : ℕ) (weights : List ℕ)
    → sum weights ≡ 100
    → sum (stratified_counts total weights) ≡ total
sum-stratified_counts total [] h = absurd (unfold sum in omega arith)
sum-stratified_counts total (w ∷ ws) h =
    let k = sum-floors_le total (w ∷ ws) in
    let t : sum (floors total (w ∷ ws)) * 100 ≤ total * 100 = rw h at k in
    sum-stratified_counts_at total w ws (top_from none 0 (w ∷ ws)) refl (omega arith)
