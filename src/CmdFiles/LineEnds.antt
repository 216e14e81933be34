-- ===== src/CmdFiles/LineEnds.antt =====
-- `toCRLF`: the line ends that a client gets.
use mathlib.Core.List.{reverse-append}
use rconfig_sim.CmdFiles.{crlf_to_lf, lf_to_crlf, to_crlf}
use rconfig_sim.Text.{has_suffix}
use rconfig_sim.Base.{
  ◌==◌, Bool-cases, Bytes, crlf, ℕ, ◌≡◌, refl, sym, ◌≢◌, ◌⊎◌, inl, inr, Bool, true, false, [], ◌∷◌,
  ◌++◌, arith,
}

crlf_to_lf_line : (s : Bytes) → crlf_to_lf (0x0d ∷ 0x0a ∷ s) ≡ 0x0a ∷ crlf_to_lf s
unfolding crlf_to_lf
crlf_to_lf_line s = refl

crlf_to_lf_other :
    (c d : ℕ) (s : Bytes) → c ≢ 0x0d ⊎ d ≢ 0x0a → crlf_to_lf (c ∷ d ∷ s) ≡ c ∷ crlf_to_lf (d ∷ s)
unfolding crlf_to_lf
crlf_to_lf_other c d s h = ground arith

-- The first byte is no line feed, if there is one.
abbrev StartsPlain : Bytes → Type 0
StartsPlain [] = Unit
StartsPlain (d ∷ s) = d ≢ 0x0a

lf_to_crlf-StartsPlain : (s : Bytes) → StartsPlain (lf_to_crlf s)
unfolding lf_to_crlf
lf_to_crlf-StartsPlain [] = tt
lf_to_crlf-StartsPlain (c ∷ s) = elim (Bool-cases (c == 0x0a)) [
  | inl t ↦ rw t (omega arith)
  | inr t ↦ rw t (ground arith)
]

crlf_to_lf_plain : (c : ℕ) (s : Bytes) → StartsPlain s → crlf_to_lf (c ∷ s) ≡ c ∷ crlf_to_lf s
unfolding crlf_to_lf
crlf_to_lf_plain c [] h = refl
crlf_to_lf_plain c (d ∷ s) h = ground arith

-- Turning the line ends to CRLF and back gives the text.
crlf_to_lf-lf_to_crlf : (s : Bytes) → crlf_to_lf (lf_to_crlf s) ≡ s
unfolding lf_to_crlf
crlf_to_lf-lf_to_crlf [] = unfold crlf_to_lf in refl
crlf_to_lf-lf_to_crlf (c ∷ s) = elim (Bool-cases (c == 0x0a)) [
  | inl t ↦ rw (t, crlf_to_lf_line (lf_to_crlf s), crlf_to_lf-lf_to_crlf s) (ground arith)
  | inr t ↦
      rw (t, crlf_to_lf_plain c (lf_to_crlf s) (lf_to_crlf-StartsPlain s), crlf_to_lf-lf_to_crlf s)
        refl
]

-- Every line feed has a carriage return before it; `r` tells whether the byte before is one.
abbrev pub Paired : Bool → Bytes → Type 0
Paired r [] = Unit
Paired r (c ∷ s) = ((c ≢ 0x0a) ⊎ (r ≡ true)) × Paired (c == 0x0d) s

lf_to_crlf-Paired : (r : Bool) (s : Bytes) → Paired r (lf_to_crlf s)
unfolding lf_to_crlf
lf_to_crlf-Paired r [] = tt
lf_to_crlf-Paired r (c ∷ s) = elim (Bool-cases (c == 0x0a)) [
  | inl t ↦ rw t (inl (omega arith), (inr refl, lf_to_crlf-Paired false s))
  | inr t ↦ rw t (inl (ground arith), lf_to_crlf-Paired (c == 0x0d) s)
]

lf_to_crlf-append : (s t : Bytes) → lf_to_crlf (s ++ t) ≡ lf_to_crlf s ++ lf_to_crlf t
unfolding lf_to_crlf
lf_to_crlf-append [] t = refl
lf_to_crlf-append (c ∷ s) t = ground (arith, lf_to_crlf-append s t)

has_suffix-append : (s : Bytes) → has_suffix (s ++ crlf) crlf ≡ true
unfolding has_suffix
has_suffix-append s = rw (reverse-append s crlf) refl

to_crlf_form :
    (b : Bytes) → (y : Bytes) × (to_crlf b ≡ lf_to_crlf y) × (has_suffix (to_crlf b) crlf ≡ true)
unfolding to_crlf lf_to_crlf
to_crlf_form b =
    let s = crlf_to_lf b in
    elim (Bool-cases (has_suffix (lf_to_crlf s) crlf)) [
      | inl t ↦ (s, rw t refl, rw (t, t) refl)
      | inr t ↦ (
        s ++ (0x0a ∷ []),
        rw t (sym (lf_to_crlf-append s (0x0a ∷ []))),
        rw t (has_suffix-append (lf_to_crlf s)),
      )
    ]

to_crlf-lf_to_crlf :
    (y : Bytes) → has_suffix (lf_to_crlf y) crlf ≡ true → to_crlf (lf_to_crlf y) ≡ lf_to_crlf y
unfolding to_crlf
to_crlf-lf_to_crlf y h = rw (crlf_to_lf-lf_to_crlf y, h) refl

-- What is served ends with CRLF, has a carriage return before every line feed, and would be served
-- unchanged if it stood in the file.
pub to_crlf-Paired :
    (b : Bytes)
    → (has_suffix (to_crlf b) crlf ≡ true)
      × Paired false (to_crlf b)
      × (to_crlf (to_crlf b) ≡ to_crlf b)
to_crlf-Paired b =
    let (y, e, h) = to_crlf_form b in
    (h, rw e (lf_to_crlf-Paired false y), rw e (to_crlf-lf_to_crlf y (rw e at h)))
