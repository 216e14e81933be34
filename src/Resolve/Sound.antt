-- ===== src/Resolve/Sound.antt =====
-- What `ResolveCommand` may answer, and when.
use rconfig_sim.Resolve.Rows.{
  find_exact_sound, Selects, matches_sound, count_cmd, count_cmd-matches, several_length,
}
use rconfig_sim.Command.{same, Command, unknown, empty, ambiguous}
use rconfig_sim.Text.{to_lower, trim_space, fields}
use rconfig_sim.Base.{
  ◌==◌, Bool-cases, Option-cases, length, Bytes, equal, ◌≤◌, ◌<◌, ◌≡◌, refl, sym, ap, ◌∙◌, ◌≢◌, ◌⊎◌,
  inl, inr, true, List, [], ◌∷◌, arith, In,
}
use rconfig_sim.Resolve.{
  table, find_exact, tokens_match, matches, seen_cmds, choose, resolve, Spec, resolve_normalized,
}

-- The row that `choose` picks: it is one of the rows, and has as many tokens as the user typed.
record Picked (us : List Bytes) (ms : List Spec) (cmd : Command) (canon : Bytes) : Type 0 where
  row : Spec
  among : In row ms
  row_cmd : row.cmd ≡ cmd
  row_canonical : row.canonical ≡ canon
  full : length us ≡ length row.tokens

abbrev IsReal : Command → Type 0
IsReal c = (c ≢ unknown) × (c ≢ empty) × (c ≢ ambiguous)

module _ (us : List Bytes) (cmd : Command) (canon : Bytes) (real : IsReal cmd) where
  choose-Picked :
      (ms : List Spec)
      → choose us ms ≡ (cmd, canon)
      → ((r : Spec) → In r ms → In r table × Selects us r)
      → ((c : Command) → count_cmd c ms ≤ count_cmd c table)
      → 0 < length us
      → Picked us ms cmd canon
  unfolding choose
  choose-Picked [] h sound few pos = ground arith
  choose-Picked (r ∷ []) h sound few pos = record {
    row = r;
    among = inl refl;
    row_cmd = ground arith;
    row_canonical = ground arith;
    full = ground (arith, sound r);
  }
  choose-Picked (r ∷ q ∷ rs) h sound few pos =
      elim (Bool-cases (length (seen_cmds (r ∷ q ∷ rs)) == 1)) [
        | inl same_cmd ↦
            let picked : ◌≡◌ {A = Command × Bytes} (r.cmd, r.canonical) (cmd, canon) =
              rw same_cmd at h in
            record {
              row = r;
              among = inl refl;
              row_cmd = cc;
              row_canonical = cc;
              full = omega (
                arith,
                several_length r q rs same_cmd (sound r (inl refl)).0 few,
                (sound r (inl refl)).1.0,
              );
            }
        | inr several ↦ ground arith
      ]

-- What a line, trimmed and in lower case, resolves to when that is a command: a row of the table
-- whose text the line is, or whose tokens the line's words abbreviate one by one.
pub record Resolves (line : Bytes) (cmd : Command) (canon : Bytes) : Type 0 where
  pub row : Spec
  pub listed : In row table
  pub row_cmd : row.cmd ≡ cmd
  pub row_canonical : row.canonical ≡ canon
  pub typed :
      (canon ≡ line)
      ⊎ ((length (fields line) ≡ length row.tokens)
          × (tokens_match (fields line) row.tokens ≡ true))

-- no word at all selects every row, and that is ambiguous
choose_none : choose [] (matches [] table) ≡ (ambiguous, [])
unfolding choose matches table same
choose_none = refl

module _ (line : Bytes) (cmd : Command) (canon : Bytes) (real : IsReal cmd) where
  choose_words :
      (us : List Bytes)
      → choose us (matches us table) ≡ (cmd, canon)
      → Picked us (matches us table) cmd canon
  choose_words [] h = absurd (real.2 (ap (λ (p : Command × Bytes). p.0) (sym h ∙ choose_none)))
  choose_words (u ∷ us) h =
      choose-Picked (u ∷ us) cmd canon real (matches (u ∷ us) table) h
        (λ r. matches_sound (u ∷ us) table r) (λ c. count_cmd-matches c (u ∷ us) table)
        (omega arith)

  resolve_normalized-Resolves : resolve_normalized line ≡ (cmd, canon) → Resolves line cmd canon
  unfolding resolve_normalized
  resolve_normalized-Resolves h = elim (Option-cases (find_exact line table)) [
    | inl absent ↦
        let p = choose_words (fields line) (rw (absent, resolve_normalized) at h) in
        let (m, selects) = matches_sound (fields line) table p.row p.among in
        record {
          row = p.row;
          listed = m;
          row_cmd = p.row_cmd;
          row_canonical = p.row_canonical;
          typed = inr (p.full, selects.1);
        }
    | inr (r, found) ↦
        let (m, e) = find_exact_sound line table r found in
        let same_pair : ◌≡◌ {A = Command × Bytes} (r.cmd, r.canonical) (cmd, canon) =
          rw (found, resolve_normalized) at h in
        record {
          row = r;
          listed = m;
          row_cmd = ap (λ (p : Command × Bytes). p.0) same_pair;
          row_canonical = ap (λ (p : Command × Bytes). p.1) same_pair;
          typed = inl (sym (ap (λ (p : Command × Bytes). p.1) same_pair) ∙ e);
        }
  ]

-- A line that resolves to a command other than "unknown", "empty" and "ambiguous" is, trimmed and
-- in lower case, the text of a row of the table or a full abbreviation of its tokens, and the
-- answer is that row's command and text.
pub resolve-Resolves :
    (input : Bytes) (cmd : Command) (canon : Bytes)
    → resolve input ≡ (cmd, canon)
    → cmd ≢ unknown
    → cmd ≢ empty
    → cmd ≢ ambiguous
    → Resolves (to_lower (trim_space input)) cmd canon
unfolding resolve
resolve-Resolves input cmd canon h a b c = elim (Bool-cases (equal (trim_space input) [])) [
  | inl blank ↦ absurd (b (sym (ap (λ (p : Command × Bytes). p.0) (rw blank at h))))
  | inr text ↦ resolve_normalized-Resolves _ cmd canon (a, b, c) (rw text at h)
]
