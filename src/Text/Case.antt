-- ===== src/Text/Case.antt =====
-- Letter case and surrounding space.
use rconfig_sim.Base.{
  Bool-cases, All, Bytes, ℕ, ◌≡◌, refl, ◌⊎◌, inl, inr, true, [], ◌∷◌, ◌++◌, arith,
}
use rconfig_sim.Text.{is_space, lower, upper, to_lower, to_upper, trim_left, trim_right, trim_space}

pub lower-upper : (c : ℕ) → lower (upper c) ≡ lower c
unfolding lower upper
lower-upper c = ground arith

pub upper-upper : (c : ℕ) → upper (upper c) ≡ upper c
unfolding upper
upper-upper c = ground arith

pub lower-lower : (c : ℕ) → lower (lower c) ≡ lower c
unfolding lower
lower-lower c = ground arith

pub is_space-upper : (c : ℕ) → is_space (upper c) ≡ is_space c
unfolding is_space upper
is_space-upper c = ground arith

pub to_lower-to_upper : (s : Bytes) → to_lower (to_upper s) ≡ to_lower s
to_lower-to_upper [] = refl
to_lower-to_upper (c ∷ s) = cc (lower-upper c, to_lower-to_upper s)

pub to_upper_idem : (s : Bytes) → to_upper (to_upper s) ≡ to_upper s
to_upper_idem [] = refl
to_upper_idem (c ∷ s) = cc (upper-upper c, to_upper_idem s)

trim_left-to_upper : (s : Bytes) → trim_left (to_upper s) ≡ to_upper (trim_left s)
unfolding trim_left
trim_left-to_upper [] = refl
trim_left-to_upper (c ∷ s) = ground (arith, is_space-upper c, trim_left-to_upper s)

trim_right-to_upper : (s : Bytes) → trim_right (to_upper s) ≡ to_upper (trim_right s)
unfolding trim_right
trim_right-to_upper [] = refl
trim_right-to_upper (c ∷ s) = ground (arith, is_space-upper c, trim_right-to_upper s)

pub trim_space-to_upper : (s : Bytes) → trim_space (to_upper s) ≡ to_upper (trim_space s)
unfolding trim_space
trim_space-to_upper s = cc (trim_left-to_upper s, trim_right-to_upper (trim_left s))

-- A text with no space at either end.
abbrev pub IsTrimmed : Bytes → Type 0
IsTrimmed s = trim_space s ≡ s

-- Every byte is a space.
abbrev pub IsBlank : Bytes → Type 0
IsBlank = All (λ c. is_space c ≡ true)

pub trim_left-append_blank : (p s : Bytes) → IsBlank p → trim_left (p ++ s) ≡ trim_left s
unfolding trim_left
trim_left-append_blank [] s h = refl
trim_left-append_blank (c ∷ p) s h = ground (arith, trim_left-append_blank p s h.1)

trim_right_blank : (p : Bytes) → IsBlank p → trim_right p ≡ []
unfolding trim_right
trim_right_blank [] h = refl
trim_right_blank (c ∷ p) h = ground (arith, trim_right_blank p h.1)

pub trim_right-append_blank : (s p : Bytes) → IsBlank p → trim_right (s ++ p) ≡ trim_right s
unfolding trim_right
trim_right-append_blank [] p h = trim_right_blank p h
trim_right-append_blank (c ∷ s) p h = ground (arith, trim_right-append_blank s p h)

trim_left_blank : (p : Bytes) → IsBlank p → trim_left p ≡ []
unfolding trim_left
trim_left_blank [] h = refl
trim_left_blank (c ∷ p) h = ground (arith, trim_left_blank p h.1)

trim_left_cases : (s : Bytes) → IsBlank s ⊎ ((p : Bytes) → trim_left (s ++ p) ≡ trim_left s ++ p)
unfolding trim_left
trim_left_cases [] = inl tt
trim_left_cases (c ∷ s) = elim (Bool-cases (is_space c)) [
  | inl e ↦ elim (trim_left_cases s) [ inl b ↦ inl (e, b) | inr f ↦ inr (λ p. rw e (f p)) ]
  | inr e ↦ inr (λ p. rw e refl)
]

-- Spaces around a text do not change what it trims to.
pub trim_space-around :
    (p s q : Bytes) → IsBlank p → IsBlank q → trim_space (p ++ (s ++ q)) ≡ trim_space s
unfolding trim_space
trim_space-around p s q hp hq =
    rw (trim_left-append_blank p (s ++ q) hp) (elim (trim_left_cases s) [
      | inl b ↦ rw (trim_left-append_blank s q b, trim_left_blank q hq, trim_left_blank s b)
      | inr f ↦ rw (f q) (trim_right-append_blank (trim_left s) q hq)
    ])
