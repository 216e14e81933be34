-- ===== src/Generator/Shuffle.antt =====
-- `buildAssignments`: how many devices there are of every model.
use rconfig_sim.Base.{
  ◌==◌, if◌then◌else◌, length, get_or, replicate, ℕ, zero, suc, ◌+◌, ◌-◌, ◌<◌, ◌≡◌, refl, ap, ◌∙◌,
  inl, inr, List, [], ◌∷◌, ◌++◌, arith, ltb_cases,
}
use rconfig_sim.Generator.{assignments_from, set_at, swap, shuffle_from, build_assignments}
use rconfig_sim.Fault.{intn, intn_lt, Rng}

abbrev pub count : ℕ → List ℕ → ℕ
count m [] = 0
count m (x ∷ xs) = (if x == m then 1 else 0) + count m xs

abbrev one_if : ℕ → ℕ → ℕ
one_if x m = if x == m then 1 else 0

count-set_at :
    (m i v : ℕ) (xs : List ℕ)
    → i < length xs
    → count m (set_at i v xs) + one_if (get_or xs i 0) m ≡ count m xs + one_if v m
unfolding set_at
count-set_at m i v [] h = absurd (omega arith)
count-set_at m zero v (x ∷ xs) h = ground arith
count-set_at m (suc i) v (x ∷ xs) h = let k = count-set_at m i v xs (omega arith) in ground arith

length-set_at : (i v : ℕ) (xs : List ℕ) → length (set_at i v xs) ≡ length xs
unfolding set_at
length-set_at i v [] = refl
length-set_at zero v (x ∷ xs) = refl
length-set_at (suc i) v (x ∷ xs) = ap suc (length-set_at i v xs)

get_or-set_at : (i j : ℕ) (xs : List ℕ) → get_or (set_at i (get_or xs j 0) xs) j 0 ≡ get_or xs j 0
unfolding set_at
get_or-set_at i j [] = refl
get_or-set_at zero zero (x ∷ xs) = refl
get_or-set_at zero (suc j) (x ∷ xs) = refl
get_or-set_at (suc i) zero (x ∷ xs) = refl
get_or-set_at (suc i) (suc j) (x ∷ xs) = get_or-set_at i j xs

count-swap :
    (m i j : ℕ) (xs : List ℕ)
    → i < length xs
    → j < length xs
    → (count m (swap i j xs) ≡ count m xs) × (length (swap i j xs) ≡ length xs)
unfolding swap
count-swap m i j xs hi hj =
    let ys = set_at i (get_or xs j 0) xs in
    let l = length-set_at i (get_or xs j 0) xs in
    let a = count-set_at m i (get_or xs j 0) xs hi in
    let b = count-set_at m j (get_or xs i 0) ys (omega arith) in
    let c = rw (get_or-set_at i j xs) at b in (omega arith, length-set_at j (get_or xs i 0) ys ∙ l)

count-shuffle_from :
    (m i : ℕ) (r : Rng) (xs : List ℕ) → i < length xs → count m (shuffle_from i r xs) ≡ count m xs
unfolding shuffle_from
count-shuffle_from m zero r xs h = refl
count-shuffle_from m (suc i) r xs h =
    let (j, later) = intn (i + 2) r in
    let jl : j < i + 2 = intn_lt (i + 2) r (omega arith) in
    let (c, l) = count-swap m (i + 1) j xs (omega arith) (omega arith) in
    count-shuffle_from m i later (swap (i + 1) j xs) (omega arith) ∙ c

count-append : (m : ℕ) (xs ys : List ℕ) → count m (xs ++ ys) ≡ count m xs + count m ys
count-append m [] ys = omega arith
count-append m (x ∷ xs) ys = omega (arith, count-append m xs ys)

count-replicate : (m n x : ℕ) → count m (replicate n x) ≡ (if x == m then n else 0)
count-replicate m zero x = ground arith
count-replicate m (suc n) x = ground (arith, count-replicate m n x)

count-assignments_below :
    (m model : ℕ) (counts : List ℕ) → m < model → count m (assignments_from model counts) ≡ 0
unfolding assignments_from
count-assignments_below m model [] h = refl
count-assignments_below m model (n ∷ ns) h =
    let a = count-append m (replicate n model) (assignments_from (model + 1) ns) in
    let b = count-replicate m n model in
    let c = count-assignments_below m (model + 1) ns (omega arith) in ground arith

count-assignments_from :
    (k model : ℕ) (counts : List ℕ)
    → count (model + k) (assignments_from model counts) ≡ get_or counts k 0
unfolding assignments_from
count-assignments_from k model [] = refl
count-assignments_from zero model (n ∷ ns) =
    let a = count-append (model + 0) (replicate n model) (assignments_from (model + 1) ns) in
    let b = count-replicate (model + 0) n model in
    let c = count-assignments_below (model + 0) (model + 1) ns (omega arith) in ground arith
count-assignments_from (suc k) model (n ∷ ns) =
    let a = count-append (model + suc k) (replicate n model) (assignments_from (model + 1) ns) in
    let b = count-replicate (model + suc k) n model in
    let e : (model + 1) + k ≡ model + suc k = omega arith in
    let d = count-assignments_from k (model + 1) ns in let c = rw e at d in ground arith

-- A run assigns every model to exactly as many devices as its count says, however they are shuffled.
pub count-build_assignments :
    (k : ℕ) (counts : List ℕ) (r : Rng) → count k (build_assignments counts r) ≡ get_or counts k 0
unfolding build_assignments
count-build_assignments k counts r =
    let out = assignments_from 0 counts in
    let e : 0 + k ≡ k = omega arith in
    let d = count-assignments_from k 0 counts in
    let c = rw e at d in
    elim (ltb_cases (length out - 1) (length out)) [
      | inl h ↦ count-shuffle_from k (length out - 1) r out h ∙ c
      | inr h ↦ let z : length out - 1 ≡ 0 = omega arith in rw z c
    ]
