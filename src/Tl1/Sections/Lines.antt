-- ===== src/Tl1/Sections/Lines.antt =====
-- Slices, and how the scan for markers passes over lines.
use rconfig_sim.Base.{
  ◌==◌, length, take, drop, Bytes, Lacks, ℕ, suc, ◌+◌, ◌-◌, ◌≡◌, refl, sym, ap, ◌⊎◌, Bool, true,
  false, ◌&&◌, some, [], ◌∷◌, ◌++◌, arith,
}
use rconfig_sim.Tl1.Sections.{index_byte, bounds_from, slice}
use rconfig_sim.Text.{has_prefix}

pub take_append : (s t : Bytes) → take (length s) (s ++ t) ≡ s
take_append [] t = refl
take_append (c ∷ s) t = ap (◌∷◌ c) (take_append s t)

pub drop_append : (s t : Bytes) → drop (length s) (s ++ t) ≡ t
drop_append [] t = refl
drop_append (c ∷ s) t = drop_append s t

pub Lacks-append : (b : ℕ) (s t : Bytes) → Lacks b s → Lacks b t → Lacks b (s ++ t)
Lacks-append b [] t h k = k
Lacks-append b (c ∷ s) t h k = (h.0, Lacks-append b s t h.1 k)

pub slice_middle :
    (pre body rest : Bytes) (start end : ℕ)
    → length pre ≡ start
    → end ≡ start + length body
    → slice (pre ++ (body ++ rest)) start end ≡ body
slice_middle pre body rest start end p q =
    let d : end - start ≡ length body = omega arith in
    rw (d, sym p, drop_append pre (body ++ rest), take_append body rest) refl

-- The text is empty or ends with a line feed.
abbrev pub EndsLine : Bytes → Type 0
EndsLine [] = Unit
EndsLine (c ∷ []) = c ≡ b'\n'
EndsLine (c ∷ d ∷ s) = EndsLine (d ∷ s)

-- No line of the text begins with the marker; the flag tells whether the text begins at a line.
abbrev pub IsClean : Bytes → Bool → Bytes → Type 0
IsClean marker at_start [] = Unit
IsClean marker at_start (c ∷ s) =
    ((at_start ≡ false) ⊎ (has_prefix (c ∷ s) marker ≡ false)) × IsClean marker (c == b'\n') s

-- In a text that ends with a line feed the marker is found or not whatever follows.
has_prefix-line :
    (c : ℕ) (s rest marker : Bytes)
    → EndsLine (c ∷ s)
    → Lacks b'\n' marker
    → has_prefix (c ∷ (s ++ rest)) marker ≡ has_prefix (c ∷ s) marker
unfolding has_prefix
has_prefix-line c s rest [] e l = refl
has_prefix-line c [] rest (p ∷ ps) e l = ground arith
has_prefix-line c (d ∷ s) rest (p ∷ ps) e l =
    ap (λ (b : Bool). (c == p) && b) (has_prefix-line d s rest ps e l.1)

abbrev pub at_end : Bool → Bytes → Bool
at_end b [] = b
at_end b (c ∷ s) = at_end (c == b'\n') s

pub at_end_line : (s : Bytes) → EndsLine s → at_end true s ≡ true
at_end_line [] e = refl
at_end_line (c ∷ []) e = ground arith
at_end_line (c ∷ d ∷ s) e = at_end_line (d ∷ s) e

pub has_prefix_self : (marker rest : Bytes) → has_prefix (marker ++ rest) marker ≡ true
unfolding has_prefix
has_prefix_self [] rest = refl
has_prefix_self (c ∷ marker) rest = ground (arith, has_prefix_self marker rest)

pub index_byte_line :
    (s rest : Bytes) → Lacks b'\n' s → index_byte (s ++ (b'\n' ∷ rest)) b'\n' ≡ some (length s)
unfolding index_byte
index_byte_line [] rest l = refl
index_byte_line (c ∷ s) rest l = let h = index_byte_line s rest l.1 in ground arith

module _ (marker : Bytes) (n : ℕ) (lacks : Lacks b'\n' marker) where
  pub bounds_from-text :
      (at_start : Bool) (i : ℕ) (t rest : Bytes)
      → EndsLine t
      → IsClean marker at_start t
      → bounds_from marker n at_start i (t ++ rest)
        ≡ bounds_from marker n (at_end at_start t) (i + length t) rest
  unfolding bounds_from
  bounds_from-text at_start i [] rest e h = let z : i + 0 ≡ i = omega arith in rw z refl
  bounds_from-text at_start i (c ∷ []) rest e h =
      let p = has_prefix-line c [] rest marker e lacks in
      let q : (at_start && has_prefix (c ∷ rest) marker) ≡ false = ground (arith, p) in rw q refl
  bounds_from-text at_start i (c ∷ d ∷ t) rest e h =
      let p = has_prefix-line c (d ∷ t) rest marker e lacks in
      let q : (at_start && has_prefix (c ∷ d ∷ (t ++ rest)) marker) ≡ false = ground (arith, p) in
      let z : i + suc (suc (length t)) ≡ (i + 1) + suc (length t) = omega arith in
      rw (q, z) (bounds_from-text (c == b'\n') (i + 1) (d ∷ t) rest e h.1)

  pub bounds_from-line :
      (i : ℕ) (t rest : Bytes)
      → Lacks b'\n' t
      → bounds_from marker n false i (t ++ (b'\n' ∷ rest))
        ≡ bounds_from marker n true (i + length t + 1) rest
  unfolding bounds_from
  bounds_from-line i [] rest l = let z : i + 0 + 1 ≡ i + 1 = omega arith in rw z refl
  bounds_from-line i (c ∷ t) rest l =
      let q : (c == b'\n') ≡ false = ground arith in
      let z : i + suc (length t) + 1 ≡ (i + 1) + length t + 1 = omega arith in
      rw (q, z) (bounds_from-line (i + 1) t rest l.1)
