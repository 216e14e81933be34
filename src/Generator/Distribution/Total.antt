-- ===== src/Generator/Distribution/Total.antt =====
-- What the weights of an accepted distribution add up to.
use mathlib.Core.Path.{subst}
use rconfig_sim.Base.Result.{Result-cases, Result, ok, err}
use rconfig_sim.Base.Int.{pos, negsuc}
use rconfig_sim.Text.Decimal.{unsigned, positive, negative, atoi}
use rconfig_sim.Text.{trim_space, split, cut}
use rconfig_sim.Base.{
  ◌==◌, ==_iff, Bool-cases, Option-cases, length, All, Bytes, equal, equal_iff, ℕ, zero, suc, ◌+◌,
  ◌%◌, ◌^◌, ◌<◌, ◌≡◌, refl, sym, ap, ◌∙◌, ◌≢◌, inl, inr, true, false, Option, none, some, List, [],
  ◌∷◌, arith,
}
use rconfig_sim.Generator.{sum}
use rconfig_sim.Generator.Models.{model_order, find_model, Model}
use rconfig_sim.Generator.Distribution.{
  Weights, put, weight_of, parse_weight, parse_weights, in_order, total_weight, parse_distribution,
  DistributionError,
}

-- No key is `name`.
abbrev Misses : Bytes → Weights → Type 0
Misses name [] = Unit
Misses name ((n, v) ∷ ws) = (equal n name ≡ false) × Misses name ws

-- No model is called `name`.
abbrev Unnamed : Bytes → List Model → Type 0
Unnamed name [] = Unit
Unnamed name (m ∷ ms) = (equal m.name name ≡ false) × (equal name m.name ≡ false) × Unnamed name ms

abbrev Distinct : List Model → Type 0
Distinct [] = Unit
Distinct (m ∷ ms) = Unnamed m.name ms × Distinct ms

model_order-Distinct : Distinct model_order
unfolding equal
model_order-Distinct = ground arith

-- The keys are distinct names of models, and the weights are ints.
abbrev IsKeyed : Weights → Type 0
IsKeyed [] = Unit
IsKeyed ((n, v) ∷ ws) = (find_model n model_order ≢ none) × (v < 2 ^ 63) × Misses n ws × IsKeyed ws

weight_of-Misses : (name : Bytes) (ws : Weights) → Misses name ws → weight_of name ws ≡ 0
unfolding weight_of
weight_of-Misses name [] h = refl
weight_of-Misses name ((n, v) ∷ ws) h = rw (h.0) (weight_of-Misses name ws h.1)

in_order-Unnamed :
    (ms : List Model) (n : Bytes) (v : ℕ) (ws : Weights)
    → Unnamed n ms
    → in_order ms ((n, v) ∷ ws) ≡ in_order ms ws
unfolding in_order weight_of
in_order-Unnamed [] n v ws h = refl
in_order-Unnamed (m ∷ ms) n v ws h = rw (h.1, in_order-Unnamed ms n v ws h.2) refl

equal_other : (a b : Bytes) → equal a b ≡ false → equal b a ≡ false
equal_other a b h = elim (Bool-cases (equal b a)) [
  | inl t ↦
      let e = (equal_iff b a).0 t in let k = (equal_iff a b).1 (sym e) in absurd (ground arith)
  | inr t ↦ t
]

sum-in_order_cons :
    (ms : List Model) (n : Bytes) (v : ℕ) (ws : Weights)
    → Distinct ms
    → find_model n ms ≢ none
    → weight_of n ws ≡ 0
    → sum (in_order ms ((n, v) ∷ ws)) ≡ v + sum (in_order ms ws)
unfolding find_model sum in_order weight_of
sum-in_order_cons [] n v ws d f z = absurd (f refl)
sum-in_order_cons (m ∷ ms) n v ws d f z = elim (Bool-cases (equal m.name n)) [
  | inl t ↦
      let e = (equal_iff m.name n).0 t in
      let k : equal n m.name ≡ true = (equal_iff n m.name).1 (sym e) in
      let u : Unnamed n ms = subst (λ (x : Bytes). Unnamed x ms) e d.0 in
      let w : weight_of m.name ws ≡ 0 = ap (λ (x : Bytes). weight_of x ws) e ∙ z in
      let i = in_order-Unnamed ms n v ws u in rw (k, i, w) (omega arith)
  | inr t ↦
      let k : equal n m.name ≡ false = equal_other m.name n t in
      let ih = sum-in_order_cons ms n v ws d.1 (λ q. f (rw t q)) z in rw k (omega arith)
]

sum-in_order_nil : (ms : List Model) → sum (in_order ms []) ≡ 0
unfolding sum in_order weight_of
sum-in_order_nil [] = refl
sum-in_order_nil (m ∷ ms) = omega (arith, sum-in_order_nil ms)

sum-in_order : (ws : Weights) → IsKeyed ws → sum (in_order model_order ws) ≡ total_weight ws
unfolding total_weight
sum-in_order [] h = sum-in_order_nil model_order
sum-in_order ((n, v) ∷ ws) h =
    let a =
      sum-in_order_cons model_order n v ws model_order-Distinct h.0 (weight_of-Misses n ws h.2) in
    let b = sum-in_order ws h.3 in omega arith

Misses-put :
    (name n : Bytes) (w : ℕ) (ws : Weights)
    → equal n name ≡ false
    → Misses name ws
    → Misses name (put n w ws)
unfolding put
Misses-put name n w [] e h = (e, tt)
Misses-put name n w ((k, v) ∷ ws) e h = elim (Bool-cases (equal k n)) [
  | inl t ↦ rw t h
  | inr t ↦ rw t (h.0, Misses-put name n w ws e h.1)
]

put-IsKeyed :
    (n : Bytes) (w : ℕ) (ws : Weights)
    → find_model n model_order ≢ none
    → w < 2 ^ 63
    → IsKeyed ws
    → IsKeyed (put n w ws)
unfolding put
put-IsKeyed n w [] f b h = (f, b, tt, tt)
put-IsKeyed n w ((k, v) ∷ ws) f b h = elim (Bool-cases (equal k n)) [
  | inl t ↦ rw t (h.0, b, h.2, h.3)
  | inr t ↦ rw t (h.0, h.1, Misses-put k n w ws (equal_other k n t) h.2, put-IsKeyed n w ws f b h.3)
]

-- What the checks on a token leave.
abbrev IsWeight : Result DistributionError (Bytes × ℕ) → Type 0
IsWeight (ok (n, w)) = (find_model n model_order ≢ none) × (w < 2 ^ 63)
IsWeight (err e) = Unit

positive_bounded : (o : Option ℕ) (n : ℕ) → positive o ≡ some (pos n) → n < 2 ^ 63
positive_bounded none n h = absurd (ground arith)
positive_bounded (some m) n h = ground arith

negative_bounded : (o : Option ℕ) (n : ℕ) → negative o ≡ some (pos n) → n < 2 ^ 63
negative_bounded none n h = absurd (ground arith)
negative_bounded (some zero) n h = ground arith
negative_bounded (some (suc m)) n h = absurd (ground arith)

atoi_bounded : (s : Bytes) (n : ℕ) → atoi s ≡ some (pos n) → n < 2 ^ 63
unfolding atoi
atoi_bounded [] n h = absurd (ground arith)
atoi_bounded (c ∷ s) n h = ground (
  arith,
  positive_bounded (unsigned (c ∷ s)) n,
  positive_bounded (unsigned s) n,
  negative_bounded (unsigned s) n,
)

parse_weight-IsWeight : (tok : Bytes) → IsWeight (parse_weight tok)
unfolding parse_weight
parse_weight-IsWeight tok = elim (Option-cases (cut tok b':')) [
  | inl e ↦ rw (e, parse_weight) tt
  | inr ((before, after), e) ↦ elim (Option-cases (find_model (trim_space before) model_order)) [
    | inl f ↦ rw (e, f, parse_weight) tt
    | inr (m, f) ↦ elim (Option-cases (atoi (trim_space after))) [
      | inl a ↦ rw (e, f, a, parse_weight) tt
      | inr (negsuc p, a) ↦ rw (e, f, a, parse_weight) tt
      | inr (pos p, a) ↦ rw (e, f, a, parse_weight) ((λ q. cc), atoi_bounded (trim_space after) p a)
    ]
  ]
]

-- What the loop over the tokens leaves.
abbrev AreKeyed : Result DistributionError Weights → Type 0
AreKeyed (ok ws) = IsKeyed ws
AreKeyed (err e) = Unit

parse_weights-AreKeyed :
    (toks : List Bytes) (ws : Weights) → IsKeyed ws → AreKeyed (parse_weights toks ws)
unfolding parse_weights
parse_weights-AreKeyed [] ws h = h
parse_weights-AreKeyed (raw ∷ toks) ws h = elim (Bool-cases (equal (trim_space raw) [])) [
  | inl t ↦ rw t (parse_weights-AreKeyed toks ws h)
  | inr t ↦ elim (Result-cases (parse_weight (trim_space raw))) [
    | inr (e, q) ↦ rw (t, q) tt
    | inl ((n, w), q) ↦
        let k = parse_weight-IsWeight (trim_space raw) in
        let j = rw q at k in
        rw (t, q) (parse_weights-AreKeyed toks (put n w ws) (put-IsKeyed n w ws j.0 j.1 h))
  ]
]

weight_of_bounded : (name : Bytes) (ws : Weights) → IsKeyed ws → weight_of name ws < 2 ^ 63
unfolding weight_of
weight_of_bounded name [] h = omega arith
weight_of_bounded name ((n, v) ∷ ws) h = elim (Bool-cases (equal n name)) [
  | inl t ↦ rw t h.1
  | inr t ↦ rw t (weight_of_bounded name ws h.3)
]

in_order_bounded :
    (ms : List Model) (ws : Weights) → IsKeyed ws → All (λ (w : ℕ). w < 2 ^ 63) (in_order ms ws)
unfolding in_order
in_order_bounded [] ws h = tt
in_order_bounded (m ∷ ms) ws h = (weight_of_bounded m.name ws h, in_order_bounded ms ws h)

length-in_order : (ws : Weights) → length (in_order model_order ws) ≡ 13
unfolding in_order
length-in_order ws = refl

-- A distribution that is accepted has a weight for each of the thirteen models, an int that is not
-- negative, and the weights add up to 100 modulo 2^64.
pub parse_distribution-total :
    (s : Bytes) (weights : List ℕ)
    → parse_distribution s ≡ ok weights
    → (length weights ≡ 13) × All (λ (w : ℕ). w < 2 ^ 63) weights × (sum weights % 2 ^ 64 ≡ 100)
unfolding parse_distribution
parse_distribution-total s weights h = elim (Result-cases (parse_weights (split s b',') [])) [
  | inr (e, q) ↦ let k = rw (q, parse_distribution) at h in absurd (ground arith)
  | inl (ws, q) ↦
      let a = parse_weights-AreKeyed (split s b',') [] tt in
      let keyed = rw q at a in
      let k = rw (q, parse_distribution) at h in
      elim (Bool-cases (total_weight ws % 2 ^ 64 == 100)) [
        | inr t ↦ let j = rw t at k in absurd (ground arith)
        | inl t ↦
            let j = rw t at k in
            let e : in_order model_order ws ≡ weights = cc in
            let n : length (in_order model_order ws) ≡ 13 = length-in_order ws in
            subst
              (λ (l : List ℕ).
                (length l ≡ 13) × All (λ (w : ℕ). w < 2 ^ 63) l × (sum l % 2 ^ 64 ≡ 100))
              e
              (
                n,
                in_order_bounded model_order ws keyed,
                ap (λ (m : ℕ). m % 2 ^ 64) (sum-in_order ws keyed)
                    ∙ (==_iff (total_weight ws % 2 ^ 64) 100).0 t,
              )
      ]
]
