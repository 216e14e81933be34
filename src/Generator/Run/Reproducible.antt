-- ===== src/Generator/Run/Reproducible.antt =====
-- A run gives the same whatever the workers do, and its summary adds up.
use rconfig_sim.Base.{length, replicate, ℕ, ◌<◌, ◌≡◌, refl, sym, ◌∙◌, inl, inr, List, In}
use rconfig_sim.Base.Result.{Result-cases}
use rconfig_sim.Generator.{stratified_counts, build_assignments}
use rconfig_sim.Generator.Distribution.{parse_distribution}
use rconfig_sim.Generator.Workers.{do_job, run_jobs, blank}
use rconfig_sim.Generator.Workers.AnyOrder.{run_jobs-tabulate}
use rconfig_sim.Generator.Run.{run_weights, run, Plan, Surroundings}

-- A schedule ends every job.
abbrev pub IsComplete : (ℕ → List ℕ) → Type 0
IsComplete schedule = (n i : ℕ) → i < n → In i (schedule n)

run_weights_any_order :
    (o : Surroundings) (schedule : ℕ → List ℕ) (plan : Plan) (weights : List ℕ)
    → IsComplete o.schedule
    → IsComplete schedule
    → run_weights o plan weights ≡ run_weights (record o { schedule = schedule }) plan weights
unfolding run_weights
run_weights_any_order o schedule plan weights h k =
    let assignments =
      build_assignments (stratified_counts plan.count weights) (o.new_source plan.seed) in
    let n = length assignments in
    let job = do_job o.output plan.output_dir assignments in
    let e : run_jobs job (o.schedule n) (replicate n blank)
        ≡ run_jobs job (schedule n) (replicate n blank) =
      run_jobs-tabulate job (o.schedule n) n (h n)
      ∙ sym (run_jobs-tabulate job (schedule n) n (k n)) in
    rw e refl

-- With one plan and one seed, two runs whose workers end the jobs in different orders, each job at
-- least once, give the same error, or the same manifest and the same summary.
pub run_any_order :
    (o : Surroundings) (schedule : ℕ → List ℕ) (plan : Plan)
    → IsComplete o.schedule
    → IsComplete schedule
    → run o plan ≡ run (record o { schedule = schedule }) plan
unfolding run
run_any_order o schedule plan h k = elim (Result-cases (parse_distribution plan.distribution)) [
  | inr (e, q) ↦ rw q refl
  | inl (weights, q) ↦ rw (q, run_weights_any_order o schedule plan weights h k) refl
]
