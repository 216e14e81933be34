-- ===== src/Generator/Run.antt =====
-- internal/configs/generator.go: `Run` as a whole, and its summary.
pub mod Reproducible
pub mod Sums
use rconfig_sim.Base.{
  if◌then◌else◌, length, replicate, Bytes, equal, ℕ, ◌+◌, Bool, not, List, [], ◌∷◌,
}
use rconfig_sim.Base.Result.{Result, ok, err}
use rconfig_sim.Generator.{stratified_counts, build_assignments, fits}
use rconfig_sim.Generator.Distribution.{parse_distribution, DistributionError}
use rconfig_sim.Generator.Models.{model_order, Model}
use rconfig_sim.Generator.Manifest.{manifest, RunConfig, Made}
use rconfig_sim.Generator.Workers.{do_job, run_jobs, collect, Written, JobResult, blank, Output}
use rconfig_sim.Fault.{Rng}

-- `bucketStats`, and the parts of `Summary` besides the time.
pub record BucketStats : Type 0 where
  pub target : ℕ
  pub realised : ℕ
  pub bytes : ℕ

pub record Summary : Type 0 where
  pub count : ℕ
  pub total_bytes : ℕ
  pub per_bucket : List (Bytes × BucketStats)
  pub weights : List ℕ

-- The fields of `Config` that `Run` looks at.
pub record Plan : Type 0 where
  pub count : ℕ
  pub ip_count : ℕ
  pub distribution : Bytes
  pub seed : ℕ
  pub output_dir : Bytes
  pub rows : RunConfig

-- What the disk and the workers do: whether the two directories and the manifest can be made, what
-- the jobs write, and the order in which the workers end a number of jobs.
pub record Surroundings : Type 0 where
  pub new_source : ℕ → Rng
  pub has_output_dir : Bool
  pub has_manifest_dir : Bool
  pub has_manifest : Bool
  pub output : Output
  pub schedule : ℕ → List ℕ

pub data RunError : Type 0 where
  bad_sizes no_output_dir no_manifest_dir no_manifest : RunError
  device_failed : ℕ → Written → RunError
  bad_distribution : DistributionError → RunError

-- `summary.PerBucket` before the rows: the targets.
unfoldable pub targets : List Model → List ℕ → List (Bytes × BucketStats)
targets [] counts = []
targets (m ∷ ms) [] = (m.name, record { target = 0; realised = 0; bytes = 0 }) ∷ targets ms []
targets (m ∷ ms) (n ∷ ns) = (m.name, record { target = n; realised = 0; bytes = 0 }) ∷ targets ms ns

-- One row more for a bucket.
unfoldable pub bump : Bytes → ℕ → List (Bytes × BucketStats) → List (Bytes × BucketStats)
bump name n [] = (name, record { target = 0; realised = 1; bytes = n }) ∷ []
bump name n ((k, s) ∷ stats) =
    let rest = bump name n stats in
    if equal k name
    then (k, record s { realised = s.realised + 1; bytes = s.bytes + n }) ∷ stats
    else (k, s) ∷ rest

-- The loop over the rows.
unfoldable pub tally : List Made → Summary → Summary
unfolding bump
tally [] s = s
tally (r ∷ rs) s = tally rs (record s {
  total_bytes = s.total_bytes + r.bytes;
  per_bucket = bump r.model.name r.bytes s.per_bucket;
})

-- The rows and the summary, from the results of the jobs on.
unfoldable pub report :
    Plan → Bool → List ℕ → List ℕ → List JobResult → Result RunError (List (List Bytes) × Summary)
unfolding targets tally
report plan has_manifest weights counts results = elim (collect 0 results) [
  | err (i, w) ↦ err (device_failed i w)
  | ok rs ↦
      if has_manifest
      then ok (
        manifest plan.rows rs,
        tally rs (record {
          count = plan.count;
          total_bytes = 0;
          per_bucket = targets model_order counts;
          weights = weights;
        }),
      )
      else err no_manifest
]

-- `Run`, from the weights on.
unfoldable pub run_weights :
    Surroundings → Plan → List ℕ → Result RunError (List (List Bytes) × Summary)
unfolding report
run_weights o plan weights =
    let counts = stratified_counts plan.count weights in
    let assignments = build_assignments counts (o.new_source plan.seed) in
    let n = length assignments in
    let results =
      run_jobs (do_job o.output plan.output_dir assignments) (o.schedule n) (replicate n blank) in
    if not o.has_output_dir
    then err no_output_dir
    else if not o.has_manifest_dir
    then err no_manifest_dir
    else report plan o.has_manifest weights counts results

-- `Run`, up to the flush of the manifest.
unfoldable pub run : Surroundings → Plan → Result RunError (List (List Bytes) × Summary)
unfolding run_weights
run o plan =
    if fits plan.count plan.ip_count plan.rows.devices_per_ip
    then elim (parse_distribution plan.distribution) [
      | err e ↦ err (bad_distribution e)
      | ok weights ↦ run_weights o plan weights
    ]
    else err bad_sizes
