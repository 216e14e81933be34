-- ===== src/Server/Auth/Messages.antt =====
-- Searching a message.
use rconfig_sim.Server.Auth.{index_of, contains_any, auth_messages, is_auth_failure}
use rconfig_sim.Base.{
  Bool-cases, Option-cases, Bytes, equal, equal_iff, equal_refl, ℕ, ◌≡◌, refl, ap, ◌∙◌, ◌≢◌, ◌↔◌,
  ◌⊎◌, inl, inr, true, false, none, some, List, [], ◌∷◌, ◌++◌, arith,
}
use rconfig_sim.Text.{has_prefix}

-- The text stands somewhere in the message.
abbrev pub Contains : Bytes → Bytes → Type 0
Contains s sub = (before : Bytes) × (after : Bytes) × (s ≡ before ++ (sub ++ after))

has_prefix-append : (p t : Bytes) → has_prefix (p ++ t) p ≡ true
unfolding has_prefix
has_prefix-append [] t = refl
has_prefix-append (c ∷ p) t = ground (arith, has_prefix-append p t)

prefix_rest : (s p : Bytes) → has_prefix s p ≡ true → (t : Bytes) × (s ≡ p ++ t)
unfolding has_prefix
prefix_rest s [] h = (s, refl)
prefix_rest [] (c ∷ p) h = absurd (ground arith)
prefix_rest (d ∷ s) (c ∷ p) h =
    let k : has_prefix s p ≡ true = ground arith in
    let e : d ≡ c = ground arith in let (t, q) = prefix_rest s p k in (t, cc)

-- The index is of the first place where the text stands.
index_of-Contains : (s sub : Bytes) (i : ℕ) → index_of s sub ≡ some i → Contains s sub
unfolding index_of
index_of-Contains [] sub i h = elim (Bool-cases (equal sub [])) [
  | inl t ↦ let e = (equal_iff sub []).0 t in ([], [], rw e refl)
  | inr t ↦ let k = rw t at h in absurd (ground arith)
]
index_of-Contains (c ∷ s) sub i h = elim (Bool-cases (has_prefix (c ∷ s) sub)) [
  | inl t ↦ let (after, e) = prefix_rest (c ∷ s) sub t in ([], after, e)
  | inr t ↦ elim (Option-cases (index_of s sub)) [
    | inl n ↦ let k = rw (t, n) at h in absurd (ground arith)
    | inr (j, n) ↦
        let (before, after, e) = index_of-Contains s sub j n in (c ∷ before, after, ap (◌∷◌ c) e)
  ]
]

Contains-index_of :
    (s sub before after : Bytes) → s ≡ before ++ (sub ++ after) → index_of s sub ≢ none
unfolding index_of
Contains-index_of [] [] [] after e n =
    let k : equal [] [] ≡ true = equal_refl [] in let m = rw k at n in cc
Contains-index_of [] (x ∷ sub) [] after e n = cc
Contains-index_of [] sub (d ∷ before) after e n = cc
Contains-index_of (c ∷ s) sub [] after e n =
    let k : has_prefix (c ∷ s) sub ≡ true =
      ap (λ (x : Bytes). has_prefix x sub) e ∙ has_prefix-append sub after in
    let m = rw k at n in cc
Contains-index_of (c ∷ s) sub (d ∷ before) after e n =
    let f : s ≡ before ++ (sub ++ after) = cc in
    let ih = Contains-index_of s sub before after f in
    elim (Bool-cases (has_prefix (c ∷ s) sub)) [
      | inl t ↦ let m = rw t at n in cc
      | inr t ↦ elim (Option-cases (index_of s sub)) [
        | inl q ↦ ih q
        | inr (j, q) ↦ let m = rw (t, q) at n in cc
      ]
    ]

-- A message contains one of the texts.
abbrev pub ContainsOne : Bytes → List Bytes → Type 0
ContainsOne s [] = ⊥
ContainsOne s (sub ∷ subs) = Contains s sub ⊎ ContainsOne s subs

contains_any_iff :
    (s : Bytes) (subs : List Bytes) → (contains_any s subs ≡ true) ↔ ContainsOne s subs
unfolding contains_any
contains_any_iff s [] = ((λ e. cc), λ m. absurd m)
contains_any_iff s (sub ∷ subs) = elim (Option-cases (index_of s sub)) [
  | inr (i, q) ↦ ((λ e. inl (index_of-Contains s sub i q)), λ m. rw (q, contains_any) refl)
  | inl q ↦
      let (back, forth) = contains_any_iff s subs in
      (
        (λ e. let k = rw (q, contains_any) at e in inr (back k)),
        λ m.
            rw (q, contains_any)
              (elim m [
                | inl (before, after, f) ↦ absurd (Contains-index_of s sub before after f q)
                | inr c ↦ forth c
              ]),
      )
]

-- A handshake's error counts as an authentication failure exactly when its message contains one of
-- the three texts; no error does not count.
pub is_auth_failure_iff :
    (msg : Bytes)
    → ((is_auth_failure (some msg) ≡ true) ↔ ContainsOne msg auth_messages)
      × (is_auth_failure none ≡ false)
unfolding is_auth_failure
is_auth_failure_iff msg = (contains_any_iff msg auth_messages, refl)
