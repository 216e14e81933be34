-- ===== src/Generator/Workers/AnyOrder.antt =====
-- The order in which the workers take the jobs does not show in the results.
use rconfig_sim.Base.{
  ◌==◌, if◌then◌else◌, length, get_elem?, replicate, ℕ, zero, suc, ◌+◌, ◌<◌, ◌≡◌, refl, sym, ap,
  ◌∙◌, inl, inr, some, List, [], ◌∷◌, arith, In, set, length-set, length-replicate,
}
use rconfig_sim.Generator.Workers.{run_jobs, JobResult, blank}

-- What every job gives, from the index i on.
abbrev pub tabulate {ℓ} : {A : Type ℓ} → (ℕ → A) → ℕ → ℕ → List A
tabulate f i zero = []
tabulate f i (suc n) = f i ∷ tabulate f (i + 1) n

-- Each place from the i-th on holds what f gives there.
ext {ℓ} :
    {A : Type ℓ} (f : ℕ → A) (i : ℕ) (xs : List A)
    → ((j : ℕ) → j < length xs → get_elem? xs j ≡ some (f (i + j)))
    → xs ≡ tabulate f i (length xs)
ext f i [] h = refl
ext f i (x ∷ xs) h =
    let z : i + 0 ≡ i = omega arith in
    let a : some x ≡ some (f i) = h 0 (omega arith) ∙ ap (λ k. some (f k)) z in
    let b = ext f (i + 1) xs λ j l.
      let e : i + suc j ≡ i + 1 + j = omega arith in
      h (suc j) (omega arith) ∙ ap (λ k. some (f k)) e in
    cc

get_elem?-set :
    {A : Type 0} (xs : List A) (i j : ℕ) (v : A)
    → j < length xs
    → get_elem? (set xs i v) j ≡ (if i == j then some v else get_elem? xs j)
get_elem?-set [] i j v h = absurd (omega arith)
get_elem?-set (x ∷ xs) zero zero v h = refl
get_elem?-set (x ∷ xs) zero (suc j) v h = ground arith
get_elem?-set (x ∷ xs) (suc i) zero v h = ground arith
get_elem?-set (x ∷ xs) (suc i) (suc j) v h = ground (arith, get_elem?-set xs i j v (omega arith))

pub length-run_jobs :
    (job : ℕ → JobResult) (is : List ℕ) (rs : List JobResult)
    → length (run_jobs job is rs) ≡ length rs
unfolding run_jobs
length-run_jobs job [] rs = refl
length-run_jobs job (i ∷ is) rs =
    length-run_jobs job is (set rs i (job i)) ∙ length-set rs i (job i)

-- A place that is filled stays filled.
run_jobs_kept :
    (job : ℕ → JobResult) (is : List ℕ) (rs : List JobResult) (j : ℕ)
    → j < length rs
    → get_elem? rs j ≡ some (job j)
    → get_elem? (run_jobs job is rs) j ≡ some (job j)
unfolding run_jobs
run_jobs_kept job [] rs j l h = h
run_jobs_kept job (i ∷ is) rs j l h =
    let n = length-set rs i (job i) in
    run_jobs_kept job is (set rs i (job i)) j (omega arith)
      (ground (arith, get_elem?-set rs i j (job i) l))

run_jobs_filled :
    (job : ℕ → JobResult) (is : List ℕ) (rs : List JobResult) (j : ℕ)
    → j < length rs
    → In j is
    → get_elem? (run_jobs job is rs) j ≡ some (job j)
unfolding run_jobs
run_jobs_filled job [] rs j l m = elim m [ ]
run_jobs_filled job (i ∷ is) rs j l (inl e) =
    let n = length-set rs i (job i) in
    run_jobs_kept job is (set rs i (job i)) j (omega arith)
      (ground (arith, get_elem?-set rs i j (job i) l))
run_jobs_filled job (i ∷ is) rs j l (inr m) =
    let n = length-set rs i (job i) in run_jobs_filled job is (set rs i (job i)) j (omega arith) m

-- In whatever order the jobs of n devices are ended, each of them at least once, the results are
-- those of the devices in order.
pub run_jobs-tabulate :
    (job : ℕ → JobResult) (order : List ℕ) (n : ℕ)
    → ((i : ℕ) → i < n → In i order)
    → run_jobs job order (replicate n blank) ≡ tabulate job 0 n
run_jobs-tabulate job order n all =
    let rs = run_jobs job order (replicate n blank) in
    let a = length-run_jobs job order (replicate n blank) in
    let b = length-replicate n blank in
    let l : length rs ≡ n = a ∙ b in
    ext job 0 rs (λ j h.
      let e : 0 + j ≡ j = omega arith in
      run_jobs_filled job order (replicate n blank) j (omega arith) (all j (omega arith))
      ∙ ap (λ k. some (job k)) (sym e))
    ∙ ap (tabulate job 0) l
