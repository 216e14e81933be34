-- ===== src/Text/Split.antt =====
-- Splitting at a separator, and joining.
use rconfig_sim.Base.{
  ◌==◌, ==_iff, Bool-cases, Bytes, Lacks, ℕ, ◌≡◌, refl, sym, ap, ◌∙◌, inl, inr, true, false, List,
  [], ◌∷◌, ◌++◌, arith,
}
use rconfig_sim.Text.{is_space, trim_left, trim_right, trim_space, split, join}

pub split-sep : (s t : Bytes) (sep : ℕ) → Lacks sep s → split (s ++ (sep ∷ t)) sep ≡ s ∷ split t sep
unfolding split
split-sep [] t sep h = ground arith
split-sep (c ∷ s) t sep h = ground (arith, split-sep s t sep h.1)

pub split-Lacks : (s : Bytes) (sep : ℕ) → Lacks sep s → split s sep ≡ s ∷ []
unfolding split
split-Lacks [] sep h = refl
split-Lacks (c ∷ s) sep h = ground (arith, split-Lacks s sep h.1)

-- Splitting never gives no part at all.
pub split_cons : (s : Bytes) (sep : ℕ) → (p : Bytes) × (ps : List Bytes) × (split s sep ≡ p ∷ ps)
unfolding split
split_cons [] sep = ([], [], refl)
split_cons (c ∷ s) sep =
    let (p, ps, e) = split_cons s sep in
    elim (Bool-cases (c == sep)) [
      | inl t ↦ ([], split s sep, rw t refl)
      | inr f ↦ (c ∷ p, ps, rw (f, e) refl)
    ]

join_push :
    (c : ℕ) (p : Bytes) (ps : List Bytes) (sep : Bytes)
    → join ((c ∷ p) ∷ ps) sep ≡ c ∷ join (p ∷ ps) sep
unfolding join
join_push c p [] sep = refl
join_push c p (q ∷ ps) sep = refl

join_fresh :
    (p : Bytes) (ps : List Bytes) (sep : Bytes) → join ([] ∷ p ∷ ps) sep ≡ sep ++ join (p ∷ ps) sep
unfolding join
join_fresh p ps sep = refl

split_at : (c : ℕ) (s : Bytes) (sep : ℕ) → (c == sep) ≡ true → split (c ∷ s) sep ≡ [] ∷ split s sep
unfolding split
split_at c s sep h = rw h

split_in :
    (c : ℕ) (s : Bytes) (sep : ℕ) (p : Bytes) (ps : List Bytes)
    → (c == sep) ≡ false
    → split s sep ≡ p ∷ ps
    → split (c ∷ s) sep ≡ (c ∷ p) ∷ ps
unfolding split
split_in c s sep p ps h e = rw (h, e)

-- Joining the parts of a split with the separator gives the text back.
pub join-split : (s : Bytes) (sep : ℕ) → join (split s sep) (sep ∷ []) ≡ s
join-split [] sep = unfold split join in refl
join-split (c ∷ s) sep =
    let (p, ps, e) = split_cons s sep in
    let back : join (p ∷ ps) (sep ∷ []) ≡ s =
      ap (λ l. join l (sep ∷ [])) (sym e) ∙ join-split s sep in
    elim (Bool-cases (c == sep)) [
      | inl same ↦
          rw (split_at c s sep same, e)
            (join_fresh p ps (sep ∷ []) ∙ cc (back, (==_iff c sep).0 same))
      | inr other ↦
          rw (split_in c s sep p ps other e) (join_push c p ps (sep ∷ []) ∙ ap (◌∷◌ c) back)
    ]

trim_right_last :
    (s : Bytes) (d : ℕ) → is_space d ≡ false → trim_right (s ++ (d ∷ [])) ≡ s ++ (d ∷ [])
unfolding trim_right
trim_right_last [] d h = rw h
trim_right_last (c ∷ []) d h = rw (h, trim_right)
trim_right_last (c ∷ e ∷ s) d h = rw (trim_right_last (e ∷ s) d h, trim_right)

-- A text between two bytes that are no spaces is trimmed.
pub trim_space_closed :
    (c : ℕ) (s : Bytes) (d : ℕ)
    → is_space c ≡ false
    → is_space d ≡ false
    → trim_space (c ∷ (s ++ (d ∷ []))) ≡ c ∷ (s ++ (d ∷ []))
unfolding trim_space trim_left
trim_space_closed c s d h k = rw h (trim_right_last (c ∷ s) d k)
