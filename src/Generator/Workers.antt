-- ===== src/Generator/Workers.antt =====
-- internal/configs/generator.go: the jobs of `Run`, which the workers take in any order.
pub mod AnyOrder
use rconfig_sim.Base.Result.{Result, ok, err}
use rconfig_sim.Base.{
  length, get_elem?, get_or, Bytes, codes, ℕ, ◌+◌, none, some, List, [], ◌∷◌, ◌++◌, set,
}
use rconfig_sim.Text.Decimal.{decimal_padded}
use rconfig_sim.Generator.Models.{model_order, Model}
use rconfig_sim.Generator.Manifest.{Made}

-- How writing a device's file ends.
pub data Written : Type 0 where
  written create_failed render_failed close_failed : Written

-- `result`: as it is before its job, and with or without an error after it.
pub data JobResult : Type 0 where
  blank : JobResult
  failed : Written → JobResult
  made : Made → JobResult

-- `device-%05d.cfg`.
unfoldable pub filename : ℕ → Bytes
filename i = codes "device-" ++ (decimal_padded 5 i ++ codes ".cfg")

-- What the builders, the templates and the disk do: the hostname and the text of a device of a model,
-- and how a write to a path ends.
pub record Output : Type 0 where
  pub hostname : ℕ → Model → Bytes
  pub text : ℕ → Model → Bytes
  pub write_to : Bytes → Written

abbrev pub finish_job : Written → Made → JobResult
finish_job written r = made r
finish_job w r = failed w

-- The body of a worker's loop. `path` is `filepath.Join`, of a clean directory; a model that is no
-- model's place does not occur.
unfoldable pub do_job : Output → Bytes → List ℕ → ℕ → JobResult
unfolding filename
do_job out dir assignments i = elim (get_elem? model_order (get_or assignments i 0)) [
  | none ↦ blank
  | some m ↦
      let path = dir ++ (b'/' ∷ filename i) in
      finish_job (out.write_to path) (record {
        model = m;
        hostname = out.hostname i m;
        path = path;
        bytes = length (out.text i m);
      })
]

-- The jobs, in the order in which the workers end them: each writes its own place of `results`.
unfoldable pub run_jobs : (ℕ → JobResult) → List ℕ → List JobResult → List JobResult
run_jobs job [] results = results
run_jobs job (i ∷ is) results = run_jobs job is (set results i (job i))

-- The result of a device that no job was done for, as Go has it: no error, and nothing in it.
abbrev pub no_device : Made
no_device = record {
  model = record { name = []; vendor = []; template = []; tmpl_file = [] };
  hostname = [];
  path = [];
  bytes = 0;
}

abbrev pub with_made : Made → Result (ℕ × Written) (List Made) → Result (ℕ × Written) (List Made)
with_made r (err e) = err e
with_made r (ok rs) = ok (r ∷ rs)

-- The loop over the results from the i-th on: the first device with an error, or all that were made.
unfoldable pub collect : ℕ → List JobResult → Result (ℕ × Written) (List Made)
collect i [] = ok []
collect i (failed w ∷ rs) = err (i, w)
collect i (made r ∷ rs) = with_made r (collect (i + 1) rs)
collect i (blank ∷ rs) = with_made no_device (collect (i + 1) rs)
