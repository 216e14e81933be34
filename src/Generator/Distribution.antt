-- ===== src/Generator/Distribution.antt =====
-- internal/configs/generator.go: `parseDistribution`.
pub mod Total
use rconfig_sim.Base.{
  ◌==◌, if◌then◌else◌, Bytes, equal, ℕ, ◌+◌, ◌%◌, ◌^◌, none, some, List, [], ◌∷◌,
}
use rconfig_sim.Base.Int.{pos, negsuc}
use rconfig_sim.Base.Result.{◌>>=◌, Result, ok, err}
use rconfig_sim.Text.{trim_space, split, cut}
use rconfig_sim.Text.Decimal.{atoi}
use rconfig_sim.Generator.Models.{model_order, find_model, Model}

pub data DistributionError : Type 0 where
  no_weight unknown_model no_int negative_weight bad_total : DistributionError

-- The map `weights`, as an association list.
abbrev pub Weights : Type 0
Weights = List (Bytes × ℕ)

unfoldable pub put : Bytes → ℕ → Weights → Weights
put name w [] = (name, w) ∷ []
put name w ((n, v) ∷ ws) =
    let rest = put name w ws in if equal n name then (n, w) ∷ ws else (n, v) ∷ rest

-- `weights[name]`, with 0 for a key that is missing.
unfoldable pub weight_of : Bytes → Weights → ℕ
weight_of name [] = 0
weight_of name ((n, v) ∷ ws) = let rest = weight_of name ws in if equal n name then v else rest

-- The checks on a token that is not empty: the name and the weight.
unfoldable pub parse_weight : Bytes → Result DistributionError (Bytes × ℕ)
parse_weight tok = elim (cut tok b':') [
  | none ↦ err no_weight
  | some (before, after) ↦ elim (find_model (trim_space before) model_order) [
    | none ↦ err unknown_model
    | some m ↦ elim (atoi (trim_space after)) [
      | none ↦ err no_int
      | some (negsuc n) ↦ err negative_weight
      | some (pos w) ↦ ok (trim_space before, w)
    ]
  ]
]

unfoldable pub parse_weights : List Bytes → Weights → Result DistributionError Weights
parse_weights [] ws = ok ws
parse_weights (raw ∷ toks) ws =
    let tok = trim_space raw in
    let skipped = parse_weights toks ws in
    let taken = parse_weight tok >>= λ nw. parse_weights toks (put nw.0 nw.1 ws) in
    if equal tok [] then skipped else taken

unfoldable pub in_order : List Model → Weights → List ℕ
in_order [] ws = []
in_order (m ∷ ms) ws = weight_of m.name ws ∷ in_order ms ws

unfoldable pub total_weight : Weights → ℕ
total_weight [] = 0
total_weight ((n, w) ∷ ws) = w + total_weight ws

-- `parseDistribution`; the result is in the order of `modelOrder`. The sum is an int, which wraps
-- around at 2^64: it is 100 when the true sum is, modulo 2^64.
unfoldable pub parse_distribution : Bytes → Result DistributionError (List ℕ)
unfolding parse_weights parse_weight in_order total_weight put weight_of
parse_distribution s = parse_weights (split s b',') [] >>= λ ws.
    if total_weight ws % 2 ^ 64 == 100 then ok (in_order model_order ws) else err bad_total
