-- ===== src/Generator/Run/Sums.antt =====
-- The manifest and the summary of a run add up.
use rconfig_sim.Base.{
  Bool-cases, length, replicate, length-append, Bytes, equal, ℕ, zero, suc, ◌+◌, ◌-◌, ◌≡◌, refl,
  sym, ap, ◌∙◌, inl, inr, Bool, not, List, [], ◌∷◌, arith, length-replicate, if-both,
}
use rconfig_sim.Base.Result.{Result-cases, Result, ok, err}
use rconfig_sim.Generator.{
  sum, stratified_counts, assignments_from, set_at, swap, shuffle_from, build_assignments, fits,
}
use rconfig_sim.Generator.Counts.{sum-stratified_counts}
use rconfig_sim.Generator.Distribution.{parse_distribution}
use rconfig_sim.Generator.Models.{model_order, Model}
use rconfig_sim.Generator.Manifest.{manifest_rows, manifest, RunConfig, Made}
use rconfig_sim.Generator.Workers.{
  do_job, run_jobs, no_device, with_made, collect, Written, JobResult, blank, failed, made,
}
use rconfig_sim.Generator.Workers.AnyOrder.{length-run_jobs}
use rconfig_sim.Generator.Run.{
  targets, bump, tally, report, run_weights, run, BucketStats, Summary, Plan, Surroundings,
  RunError,
}
use rconfig_sim.Fault.{intn, Rng}

abbrev pub realised_sum : List (Bytes × BucketStats) → ℕ
realised_sum [] = 0
realised_sum ((k, s) ∷ stats) = s.realised + realised_sum stats

abbrev pub bytes_sum : List (Bytes × BucketStats) → ℕ
bytes_sum [] = 0
bytes_sum ((k, s) ∷ stats) = s.bytes + bytes_sum stats

-- The rows are the header's and one for each realised device, the bytes are those of the buckets, and
-- the devices are as many as the plan asks for.
abbrev pub AddsUp : Plan → Result RunError (List (List Bytes) × Summary) → Type 0
AddsUp plan (err e) = Unit
AddsUp plan (ok (rows, s)) =
    (length rows ≡ suc (realised_sum s.per_bucket))
    × (s.total_bytes ≡ bytes_sum s.per_bucket)
    × ((sum s.weights ≡ 100) → realised_sum s.per_bucket ≡ plan.count)

bump_sums :
    (name : Bytes) (n : ℕ) (stats : List (Bytes × BucketStats))
    → (realised_sum (bump name n stats) ≡ suc (realised_sum stats))
      × (bytes_sum (bump name n stats) ≡ bytes_sum stats + n)
unfolding bump
bump_sums name n [] = (refl, omega arith)
bump_sums name n ((k, s) ∷ stats) = elim (Bool-cases (equal k name)) [
  | inl t ↦ rw t (omega arith, omega arith)
  | inr t ↦ let (a, b) = bump_sums name n stats in rw t (omega arith, omega arith)
]

targets_sums :
    (ms : List Model) (ns : List ℕ)
    → (realised_sum (targets ms ns) ≡ 0) × (bytes_sum (targets ms ns) ≡ 0)
unfolding targets
targets_sums [] ns = (refl, refl)
targets_sums (m ∷ ms) [] = let (a, b) = targets_sums ms [] in (omega arith, omega arith)
targets_sums (m ∷ ms) (n ∷ ns) = let (a, b) = targets_sums ms ns in (omega arith, omega arith)

tally_sums :
    (rs : List Made) (s : Summary)
    → (realised_sum (tally rs s).per_bucket ≡ realised_sum s.per_bucket + length rs)
      × ((tally rs s).total_bytes + bytes_sum s.per_bucket
          ≡ s.total_bytes + bytes_sum (tally rs s).per_bucket)
      × ((tally rs s).weights ≡ s.weights)
unfolding tally
tally_sums [] s = (omega arith, refl, refl)
tally_sums (r ∷ rs) s =
    let (a, b) = bump_sums r.model.name r.bytes s.per_bucket in
    let (p, q, w) = tally_sums rs (record s {
      total_bytes = s.total_bytes + r.bytes;
      per_bucket = bump r.model.name r.bytes s.per_bucket;
    }) in
    (omega arith, omega arith, w)

length-manifest : (cfg : RunConfig) (rs : List Made) → length (manifest cfg rs) ≡ suc (length rs)
unfolding manifest manifest_rows
length-manifest cfg rs = ap suc (rows 0 rs)
  where
    rows : (i : ℕ) (xs : List Made) → length (manifest_rows cfg i xs) ≡ length xs
    rows i [] = refl
    rows i (x ∷ xs) = ap suc (rows (i + 1) xs)

abbrev IsOfLength : ℕ → Result (ℕ × Written) (List Made) → Type 0
IsOfLength n (err e) = Unit
IsOfLength n (ok rs) = length rs ≡ n

with_made-IsOfLength :
    (n : ℕ) (r : Made) (o : Result (ℕ × Written) (List Made))
    → IsOfLength n o
    → IsOfLength (suc n) (with_made r o)
with_made-IsOfLength n r (err e) h = tt
with_made-IsOfLength n r (ok rs) h = ap suc h

collect-IsOfLength : (i : ℕ) (xs : List JobResult) → IsOfLength (length xs) (collect i xs)
unfolding collect
collect-IsOfLength i [] = refl
collect-IsOfLength i (failed w ∷ xs) = tt
collect-IsOfLength i (made r ∷ xs) =
    with_made-IsOfLength (length xs) r (collect (i + 1) xs) (collect-IsOfLength (i + 1) xs)
collect-IsOfLength i (blank ∷ xs) =
    with_made-IsOfLength (length xs) no_device (collect (i + 1) xs) (collect-IsOfLength (i + 1) xs)

length-set_at : (i v : ℕ) (xs : List ℕ) → length (set_at i v xs) ≡ length xs
unfolding set_at
length-set_at i v [] = refl
length-set_at zero v (x ∷ xs) = refl
length-set_at (suc i) v (x ∷ xs) = ap suc (length-set_at i v xs)

length-swap : (i j : ℕ) (xs : List ℕ) → length (swap i j xs) ≡ length xs
unfolding swap
length-swap i j xs = length-set_at j _ _ ∙ length-set_at i _ xs

length-shuffle_from : (i : ℕ) (r : Rng) (xs : List ℕ) → length (shuffle_from i r xs) ≡ length xs
unfolding shuffle_from
length-shuffle_from zero r xs = refl
length-shuffle_from (suc i) r xs =
    let (j, later) = intn (i + 2) r in
    length-shuffle_from i later (swap (i + 1) j xs) ∙ length-swap (i + 1) j xs

length-assignments_from : (m : ℕ) (ns : List ℕ) → length (assignments_from m ns) ≡ sum ns
unfolding assignments_from sum
length-assignments_from m [] = refl
length-assignments_from m (n ∷ ns) =
    let a = length-append (replicate n m) (assignments_from (m + 1) ns) in
    let b = length-replicate n m in let c = length-assignments_from (m + 1) ns in omega arith

length-build_assignments :
    (counts : List ℕ) (r : Rng) → length (build_assignments counts r) ≡ sum counts
unfolding build_assignments
length-build_assignments counts r =
    let out = assignments_from 0 counts in
    length-shuffle_from (length out - 1) r out ∙ length-assignments_from 0 counts

report-AddsUp :
    (plan : Plan) (has_manifest : Bool) (weights counts : List ℕ) (results : List JobResult)
    → ((sum weights ≡ 100) → length results ≡ plan.count)
    → AddsUp plan (report plan has_manifest weights counts results)
unfolding report
report-AddsUp plan has_manifest weights counts results h = elim (Result-cases (collect 0 results)) [
  | inr (e, q) ↦ rw (q, report) tt
  | inl (rs, e) ↦
      rw (e, report)
        (if-both (AddsUp plan) has_manifest
          (let start : Summary = record {
            count = plan.count;
            total_bytes = 0;
            per_bucket = targets model_order counts;
            weights = weights;
          } in
            let (z, b) = targets_sums model_order counts in
            let (p, q, w) = tally_sums rs start in
            let m = length-manifest plan.rows rs in
            let c = collect-IsOfLength 0 results in
            let k = rw e at c in
            (omega arith, omega arith, (λ t. let l = h (ap sum (sym w) ∙ t) in omega arith)))
          tt)
]

run_weights-AddsUp :
    (o : Surroundings) (plan : Plan) (weights : List ℕ) → AddsUp plan (run_weights o plan weights)
unfolding run_weights
run_weights-AddsUp o plan weights =
    let counts = stratified_counts plan.count weights in
    let assignments = build_assignments counts (o.new_source plan.seed) in
    let n = length assignments in
    let job = do_job o.output plan.output_dir assignments in
    let results = run_jobs job (o.schedule n) (replicate n blank) in
    let a : length results ≡ n =
      length-run_jobs job (o.schedule n) (replicate n blank) ∙ length-replicate n blank in
    let b : n ≡ sum counts = length-build_assignments counts (o.new_source plan.seed) in
    if-both (AddsUp plan) (not o.has_output_dir) tt (
      if-both (AddsUp plan) (not o.has_manifest_dir) tt (
        report-AddsUp plan o.has_manifest weights counts results
          (λ t. a ∙ (b ∙ sum-stratified_counts plan.count weights t))))

-- In a run that succeeds the manifest has the header and one row for each device that the summary
-- counts, and the bytes of the summary are those of its buckets; if the weights add up to 100, the
-- devices are as many as the plan asks for.
pub run-AddsUp : (o : Surroundings) (plan : Plan) → AddsUp plan (run o plan)
unfolding run
run-AddsUp o plan = elim (Bool-cases (fits plan.count plan.ip_count plan.rows.devices_per_ip)) [
  | inr t ↦ rw t tt
  | inl t ↦ elim (Result-cases (parse_distribution plan.distribution)) [
    | inr (e, q) ↦ rw (t, q) tt
    | inl (weights, q) ↦ rw (t, q) (run_weights-AddsUp o plan weights)
  ]
]
