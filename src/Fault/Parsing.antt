-- ===== src/Fault/Parsing.antt =====
-- The flags --fault-types and --fault-rate: what `NewSet` accepts, and what it enables.
use rconfig_sim.Text.{trim_space, split}
use rconfig_sim.Base.{
  Option-cases, Bytes, codes, equal, equal_iff, ◌≡◌, refl, sym, ap, ◌∙◌, ◌≢◌, ◌↔◌, ◌⊎◌, inl, inr,
  Bool, true, false, some, List, [], ◌∷◌, map, arith, In,
}
use rconfig_sim.Fault.{
  all_faults, fault_name, out_of_range, mark, parse_type, parse_types, new_set, Fault, auth_fail,
  disconnect_mid, slow_response, malformed, Float64, FaultSet,
}

parse_type_named : (s : Bytes) (t : Fault) → parse_type s all_faults ≡ some t → fault_name t ≡ s
unfolding parse_type
parse_type_named s t h = ground (
  arith,
  equal_iff (codes "auth_fail") s,
  equal_iff (codes "disconnect_mid") s,
  equal_iff (codes "slow_response") s,
  equal_iff (codes "malformed") s,
)

parse_type-fault_name : (t : Fault) → parse_type (fault_name t) all_faults ≡ some t
unfolding parse_type equal
parse_type-fault_name auth_fail = refl
parse_type-fault_name disconnect_mid = refl
parse_type-fault_name slow_response = refl
parse_type-fault_name malformed = refl

fault_name-injective : (t u : Fault) → fault_name t ≡ fault_name u → t ≡ u
fault_name-injective t u h =
    let c : some t ≡ some u =
      sym (parse_type-fault_name t)
      ∙ (ap (λ (n : Bytes). parse_type n all_faults) h ∙ parse_type-fault_name u) in
    ground arith

fault_name_some : (t : Fault) → fault_name t ≢ []
fault_name_some auth_fail h = ground arith
fault_name_some disconnect_mid h = ground arith
fault_name_some slow_response h = ground arith
fault_name_some malformed h = ground arith

mark_iff : (u t : Fault) (l : Fault → Bool) → (mark u l t ≡ true) ↔ ((u ≡ t) ⊎ (l t ≡ true))
unfolding mark
mark_iff auth_fail t l = ground arith
mark_iff disconnect_mid t l = ground arith
mark_iff slow_response t l = ground arith
mark_iff malformed t l = ground arith

-- A fault is listed once the tokens are parsed if it was before, or a token names it.
pub parse_types-Listed :
    (toks : List Bytes) (l m : Fault → Bool) (t : Fault)
    → parse_types toks l ≡ some m
    → (m t ≡ true) ↔ ((l t ≡ true) ⊎ In (fault_name t) (map trim_space toks))
unfolding parse_types
parse_types-Listed [] l m t h = ground arith
parse_types-Listed (raw ∷ toks) l m t h =
    elim (Option-cases (parse_type (trim_space raw) all_faults)) [
      | inl e ↦
          ground
            (arith, equal_iff (trim_space raw) [], fault_name_some t, parse_types-Listed toks l m t)
      | inr (u, e) ↦ ground (
        arith,
        equal_iff (trim_space raw) [],
        parse_type_named (trim_space raw) u e,
        fault_name_some u,
        fault_name-injective t u,
        mark_iff u t l,
        parse_types-Listed toks (mark u l) m t,
      )
    ]

-- The set of flags that are accepted lists exactly the faults that the flag names, and its rate is
-- the flag's, which is not below 0 nor above 1.
pub new_set-Listed :
    (types_csv : Bytes) (rate : Float64) (s : FaultSet) (t : Fault)
    → new_set types_csv rate ≡ some s
    → ((s.listed t ≡ true) ↔ In (fault_name t) (map trim_space (split types_csv b',')))
      × (s.rate ≡ rate)
      × (out_of_range rate ≡ false)
unfolding new_set
new_set-Listed types_csv rate s t h =
    let toks = split types_csv b',' in
    elim (Option-cases (parse_types toks (λ (t : Fault). false))) [
      | inl e ↦ ground arith
      | inr (m, e) ↦ ground (arith, parse_types-Listed toks (λ (t : Fault). false) m t e)
    ]
