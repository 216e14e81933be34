-- ===== src/Resolve/Rows.antt =====
-- The rows that `ResolveCommand` collects, and the commands among them.
use mathlib.Core.Path.{subst}
use rconfig_sim.Command.{same, Command}
use rconfig_sim.Base.{
  ◌==◌, if◌then◌else◌, Bool-cases, length, All, Bytes, equal_iff, ℕ, ◌+◌, ◌≤◌, ◌≡◌, refl, ◌⊎◌, inl,
  inr, true, some, List, [], ◌∷◌, arith, In, All-In,
}
use rconfig_sim.Command.Labels.{same_iff}
use rconfig_sim.Resolve.{table, find_exact, tokens_match, matches, seen_cmds, Spec, has_cmd}

pub find_exact_sound :
    (s : Bytes) (rs : List Spec) (r : Spec) → find_exact s rs ≡ some r → In r rs × (r.canonical ≡ s)
unfolding find_exact
find_exact_sound s [] r h = cc
find_exact_sound s (q ∷ rs) r h = ground (arith, equal_iff q.canonical s, find_exact_sound s rs r)

-- A row that the user's tokens select: they are no more than its own, each a prefix.
abbrev pub Selects : List Bytes → Spec → Type 0
Selects us r = (length us ≤ length r.tokens) × (tokens_match us r.tokens ≡ true)

pub matches_sound :
    (us : List Bytes) (rs : List Spec) (r : Spec) → In r (matches us rs) → In r rs × Selects us r
unfolding matches
matches_sound us [] r m = elim m [ ]
matches_sound us (q ∷ rs) r m = ground (arith, matches_sound us rs r)

pub matches_complete :
    (us : List Bytes) (rs : List Spec) (r : Spec) → In r rs → Selects us r → In r (matches us rs)
unfolding matches
matches_complete us [] r m h = elim m [ ]
matches_complete us (q ∷ rs) r m h = ground (arith, matches_complete us rs r)

-- how many rows have the command
pub count_cmd : Command → List Spec → ℕ
count_cmd c [] = 0
count_cmd c (r ∷ rs) = (if same r.cmd c then 1 else 0) + count_cmd c rs

pub count_cmd-matches :
    (c : Command) (us : List Bytes) (rs : List Spec) → count_cmd c (matches us rs) ≤ count_cmd c rs
unfolding count_cmd matches
count_cmd-matches c us [] = omega arith
count_cmd-matches c us (r ∷ rs) = ground (arith, count_cmd-matches c us rs)

abbrev AllCmd : Command → List Spec → Type 0
AllCmd c [] = Unit
AllCmd c (r ∷ rs) = (r.cmd ≡ c) × AllCmd c rs

seen_cmds_nil : (rs : List Spec) → seen_cmds rs ≡ [] → rs ≡ []
unfolding seen_cmds
seen_cmds_nil [] h = refl
seen_cmds_nil (r ∷ rs) h = ground (arith, seen_cmds_nil rs)

seen_cmds_one : (c : Command) (rs : List Spec) → seen_cmds rs ≡ c ∷ [] → AllCmd c rs
unfolding seen_cmds
seen_cmds_one c [] h = tt
seen_cmds_one c (r ∷ rs) h = elim (Bool-cases (has_cmd r.cmd (seen_cmds rs))) [
  | inl old ↦
      let e : seen_cmds rs ≡ c ∷ [] = rw old at h in
      let d : has_cmd r.cmd (c ∷ []) ≡ true = subst (λ l. has_cmd r.cmd l ≡ true) e old in
      (ground (arith, same_iff r.cmd c), seen_cmds_one c rs e)
  | inr new ↦
      let e : r.cmd ∷ seen_cmds rs ≡ c ∷ [] = rw new at h in
      let n : rs ≡ [] = seen_cmds_nil rs cc in (cc, rw n tt)
]

count_cmd_all : (c : Command) (rs : List Spec) → AllCmd c rs → count_cmd c rs ≡ length rs
unfolding count_cmd
count_cmd_all c [] h = refl
count_cmd_all c (r ∷ rs) h = ground (arith, same_iff r.cmd c, count_cmd_all c rs)

-- in the table, only commands with one-word rows have several rows
several_rows : All (λ (r : Spec). (count_cmd r.cmd table ≤ 1) ⊎ (length r.tokens ≡ 1)) table
unfolding count_cmd table same
several_rows = omega arith

seen_cmds_length_one : (cs : List Command) → (length cs == 1) ≡ true → (c : Command) × (cs ≡ c ∷ [])
seen_cmds_length_one [] h = cc
seen_cmds_length_one (c ∷ []) h = (c, refl)
seen_cmds_length_one (c ∷ d ∷ cs) h = absurd (ground arith)

pub several_length :
    (r q : Spec) (rs : List Spec)
    → (length (seen_cmds (r ∷ q ∷ rs)) == 1) ≡ true
    → In r table
    → ((c : Command) → count_cmd c (r ∷ q ∷ rs) ≤ count_cmd c table)
    → length r.tokens ≡ 1
several_length r q rs h m few =
    let (c, one) = seen_cmds_length_one _ h in
    let all = seen_cmds_one c (r ∷ q ∷ rs) one in
    let many = count_cmd_all c (r ∷ q ∷ rs) all in
    elim (All-In (λ (t : Spec). (count_cmd t.cmd table ≤ 1) ⊎ (length t.tokens ≡ 1)) table
      several_rows m) [
        | inl single ↦
            let single' : count_cmd c table ≤ 1 = subst (λ d. count_cmd d table ≤ 1) all.0 single in
            absurd (omega (arith, few c))
        | inr one_word ↦ one_word
      ]
