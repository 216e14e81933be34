-- ===== src/Resolve/Canonical.antt =====
-- The canonical texts of the table, typed in any case and with space around.
use mathlib.Core.Path.{subst}
use rconfig_sim.Text.{to_lower, trim_space}
use rconfig_sim.Base.{
  Bool-cases, All, Bytes, equal, equal_iff, equal_refl, ◌≡◌, refl, inl, inr, true, false, some, [],
  In, All-In,
}
use rconfig_sim.Resolve.{table, find_exact, resolve, Spec, resolve_normalized}

-- Each row is the first with its text.
first_rows : All (λ (r : Spec). find_exact r.canonical table ≡ some r) table
unfolding find_exact table equal
first_rows =
    (refl, (refl, (refl, (refl, (refl, (refl, (refl, (refl, (refl, (refl, (refl, tt)))))))))))

texts_nonempty : All (λ (r : Spec). equal r.canonical [] ≡ false) table
unfolding table equal
texts_nonempty =
    (refl, (refl, (refl, (refl, (refl, (refl, (refl, (refl, (refl, (refl, (refl, tt)))))))))))

-- A line that is, but for case and surrounding space, the text of a row resolves to that row.
pub resolve-canonical :
    (input : Bytes) (r : Spec)
    → In r table
    → to_lower (trim_space input) ≡ r.canonical
    → resolve input ≡ (r.cmd, r.canonical)
unfolding resolve find_exact table equal resolve_normalized
resolve-canonical input r m e = elim (Bool-cases (equal (trim_space input) [])) [
  | inl blank ↦
      let none_typed : trim_space input ≡ [] = (equal_iff _ _).0 blank in
      let empty_row : [] ≡ r.canonical = rw none_typed at e in
      cc (
        All-In (λ (q : Spec). equal q.canonical [] ≡ false) table texts_nonempty m,
        subst (λ q. equal q [] ≡ true) empty_row (equal_refl []),
      )
  | inr text ↦
      rw text (
        rw e (rw (All-In (λ (q : Spec). find_exact q.canonical table ≡ some q) table first_rows m)))
]
