-- ===== src/Tests/Generation.antt =====
-- The generator: its workers, distributions, seeds and gateways.
use rconfig_sim.Generator.Manifest.{manifest}
use rconfig_sim.Generator.Run.Sums.{AddsUp, run-AddsUp}
use rconfig_sim.Generator.Run.Reproducible.{run_any_order}
use rconfig_sim.Generator.Workers.{do_job, run_jobs, collect, written, Output}
use rconfig_sim.Generator.Run.{report, run_weights, run, Summary, Plan, Surroundings, RunError}
use rconfig_sim.Text.Decimal.{atoi}
use rconfig_sim.Generator.Models.{find_model, Model}
use rconfig_sim.Text.{trim_space, split, cut}
use rconfig_sim.Base.{
  ◌==◌, ==_iff, Bool-cases, length, replicate, All, Bytes, codes, equal, ℕ, zero, suc, ◌+◌, ◌*◌,
  ◌%◌, ◌^◌, ◌≤◌, ◌<◌, ◌≡◌, refl, inl, inr, true, List, [], ◌∷◌, ◌++◌, arith, In, In-append_left,
}
use rconfig_sim.Base.Result.{Result, ok, err}
use rconfig_sim.Generator.Random.Seeds.{device_seed-injective}
use rconfig_sim.Generator.Distribution.Total.{parse_distribution-total}
use rconfig_sim.Generator.Gateway.Linked.{build_ciena_gne-linked}
use rconfig_sim.Generator.Gateway.Elements.{AllDistinct, names, build_ciena_gne-AllDistinct}
use rconfig_sim.Generator.Shelf.{FleetConfig}
use rconfig_sim.Generator.Distribution.{parse_distribution}
use rconfig_sim.Generator.Gateway.{link_tid, build_shared_rne_shelf, build_ciena_gne}
use rconfig_sim.Generator.{sum, stratified_counts, build_assignments, fits}
use rconfig_sim.Fault.{intn, Rng}

abbrev a_hash : Bytes → Bytes
a_hash s = codes "0123" ++ s

abbrev a_source : ℕ → Rng
a_source seed = record { draws = λ (n : ℕ). seed + n * 7; drawn = 0 }

abbrev a_fleet : FleetConfig
a_fleet = record {
  count = 3;
  ip_base = codes "10.0.0.1";
  devices_per_ip = 2;
  seed = 42;
  rne_dual_home_pct = 50;
}

-- The jobs from the last to the first.
abbrev downwards : ℕ → List ℕ
downwards zero = []
downwards (suc n) = n ∷ downwards n

abbrev twice : ℕ → List ℕ
twice n = downwards n ++ downwards n

In-downwards : (n i : ℕ) → i < n → In i (downwards n)
In-downwards zero i h = absurd (omega arith)
In-downwards (suc n) i h = elim (Bool-cases (i == n)) [
  | inl t ↦ inl ((==_iff i n).0 t)
  | inr t ↦ inr (In-downwards n i (ground arith))
]

In-twice : (n i : ℕ) → i < n → In i (twice n)
In-twice n i h = In-append_left i (downwards n) (downwards n) (In-downwards n i h)

abbrev some_output : Output
some_output = record {
  hostname = λ (i : ℕ) (m : Model). codes "rtr-" ++ ((b'0' + i) ∷ []);
  text = λ (i : ℕ) (m : Model). codes "hostname";
  write_to = λ (path : Bytes). written;
}

abbrev surroundings : Surroundings
surroundings = record {
  new_source = a_source;
  has_output_dir = true;
  has_manifest_dir = true;
  has_manifest = true;
  output = some_output;
  schedule = downwards;
}

abbrev a_plan : Plan
a_plan = record {
  count = 2;
  ip_count = 1;
  distribution = codes "sm:100";
  seed = 42;
  output_dir = codes "out";
  rows = record {
    ip_base = codes "10.0.0.1";
    devices_per_ip = 2;
    port_start = 10000;
    username = codes "admin";
    password = codes "pw";
    enable_password = codes "en";
  };
}

run_any_order_example :
    run surroundings a_plan ≡ run (record surroundings { schedule = twice }) a_plan
run_any_order_example = run_any_order surroundings twice a_plan In-downwards In-twice

run-AddsUp_example : AddsUp a_plan (run surroundings a_plan)
run-AddsUp_example = run-AddsUp surroundings a_plan

abbrev sm_only : List ℕ
sm_only = 100 ∷ replicate 12 0

parse_distribution-total_example :
    (length sm_only ≡ 13) × All (λ (w : ℕ). w < 2 ^ 63) sm_only × (sum sm_only % 2 ^ 64 ≡ 100)
unfolding parse_distribution split equal trim_space cut find_model atoi
parse_distribution-total_example = parse_distribution-total (codes "sm:100") sm_only refl

device_seed-injective_example : ◌≡◌ {A = ℕ} 7 7
device_seed-injective_example =
    device_seed-injective 42 7 7 (omega arith) (omega arith) (omega arith) refl

build_ciena_gne-linked_example :
    In
      (build_shared_rne_shelf a_hash a_source a_fleet (link_tid 1))
      (build_ciena_gne a_hash a_source a_fleet 1).rnes
    × In
        (build_shared_rne_shelf a_hash a_source a_fleet (link_tid 1))
        (build_ciena_gne a_hash a_source a_fleet 2).rnes
build_ciena_gne-linked_example =
    build_ciena_gne-linked a_hash a_source a_fleet 1 (λ e. absurd (omega arith)) (omega arith)

build_ciena_gne-AllDistinct_example :
    AllDistinct (names (build_ciena_gne a_hash a_source a_fleet 1).rnes)
    × (length (build_ciena_gne a_hash a_source a_fleet 1).rnes ≤ 5)
build_ciena_gne-AllDistinct_example = build_ciena_gne-AllDistinct a_hash a_source a_fleet 1

-- Weights that add up to 100 only modulo 2^64.
huge_weights :
    parse_distribution (codes "sm:9223372036854775807,md:9223372036854775807,lg:102")
    ≡ ok (9223372036854775807 ∷ 9223372036854775807 ∷ 102 ∷ replicate 10 0)
unfolding parse_distribution split equal trim_space cut find_model atoi
huge_weights = refl

abbrev rows_of : Result RunError (List (List Bytes) × Summary) → ℕ
rows_of (ok (rows, s)) = length rows
rows_of (err e) = 0

-- The run succeeds, with the header and two devices.
three_rows : rows_of (run surroundings a_plan) ≡ 3
unfolding run run_weights report parse_distribution split equal trim_space cut find_model atoi fits
    collect run_jobs build_assignments stratified_counts intn do_job manifest
three_rows = refl
