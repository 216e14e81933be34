-- ===== src/Generator/Cisco/Users/Fresh.antt =====
-- The numbers of the VLANs are all new, and they are found.
use rconfig_sim.Base.{
  ◌==◌, if◌then◌else◌, ==_iff, Bool-cases, Option-cases, length, ℕ, zero, suc, ◌+◌, ◌-◌, ◌%◌, ◌≤◌,
  ◌<◌, ◌≡◌, refl, ap, ◌∙◌, ◌≢◌, ◌⊎◌, inl, inr, true, false, Option, none, some, List, [], ◌∷◌,
  arith,
}
use rconfig_sim.Generator.Cisco.Users.{
  is_used_id, draw_id, vlan_roles, vlan_of, in_front, vlans_from, build_vlans, Vlan,
}
use rconfig_sim.Fault.{intn, Rng}

-- Of every f draws in a row, one gives the number v modulo 3990, for each v below 3990.
abbrev pub IsFair : ℕ → (ℕ → ℕ) → Type 0
IsFair f draws = (p v : ℕ) → v < 3990 → (j : ℕ) × (j < f) × (draws (p + j) % 3990 ≡ v)

-- Each number is from 10 to 3999 and not among the used ones and those in front of it.
abbrev pub AllFresh : List ℕ → List Vlan → Type 0
AllFresh used [] = Unit
AllFresh used (v ∷ vs) =
    (is_used_id v.id used ≡ false) × (10 ≤ v.id) × (v.id < 4000) × AllFresh (v.id ∷ used) vs

-- n VLANs, or nothing.
abbrev pub AreVlans : List ℕ → ℕ → Option (List Vlan) → Type 0
AreVlans used n none = ⊥
AreVlans used n (some vs) = (length vs ≡ n) × AllFresh used vs

without : ℕ → List ℕ → List ℕ
without id [] = []
without id (k ∷ ks) = let rest = without id ks in if k == id then ks else k ∷ rest

length-without :
    (id : ℕ) (ks : List ℕ) → is_used_id id ks ≡ true → length ks ≡ suc (length (without id ks))
unfolding is_used_id without
length-without id [] h = absurd (ground arith)
length-without id (k ∷ ks) h = elim (Bool-cases (k == id)) [
  | inl t ↦ rw t refl
  | inr t ↦ let j = rw t at h in rw t (ap suc (length-without id ks j))
]

is_used_id-without :
    (a id : ℕ) (ks : List ℕ) → a ≢ id → is_used_id a ks ≡ true → is_used_id a (without id ks) ≡ true
unfolding is_used_id without
is_used_id-without a id [] n h = h
is_used_id-without a id (k ∷ ks) n h = elim (Bool-cases (k == id)) [
  | inl t ↦
      let e = (==_iff k id).0 t in
      let f : (k == a) ≡ false = ground arith in let j = rw f at h in rw t j
  | inr t ↦ elim (Bool-cases (k == a)) [
    | inl u ↦ rw (t, u) refl
    | inr u ↦ let j = rw u at h in rw (t, u) (is_used_id-without a id ks n j)
  ]
]

-- m used numbers take m places.
used_places :
    (m : ℕ) (used : List ℕ) → ((v : ℕ) → v < m → is_used_id (10 + v) used ≡ true) → m ≤ length used
used_places zero used h = omega arith
used_places (suc m) used h =
    let n = length-without (10 + m) used (h m (omega arith)) in
    let k = used_places m (without (10 + m) used) (λ v l.
      is_used_id-without (10 + v) (10 + m) used (λ e. absurd (omega arith)) (h v (omega arith))) in
    omega arith

free_or_full :
    (m : ℕ) (used : List ℕ)
    → ((v : ℕ) × (v < m) × (is_used_id (10 + v) used ≡ false))
      ⊎ ((v : ℕ) → v < m → is_used_id (10 + v) used ≡ true)
free_or_full zero used = inr (λ v l. absurd (omega arith))
free_or_full (suc m) used = elim (Bool-cases (is_used_id (10 + m) used)) [
  | inr t ↦ inl (m, omega arith, t)
  | inl t ↦ elim (free_or_full m used) [
    | inl (v, l, e) ↦ inl (v, omega arith, e)
    | inr full ↦ inr (λ v l. elim (Bool-cases (v == m)) [
      | inl u ↦ let e = (==_iff v m).0 u in rw e t
      | inr u ↦ full v (ground arith)
    ])
  ]
]

free_number :
    (used : List ℕ) → length used < 3990 → (v : ℕ) × (v < 3990) × (is_used_id (10 + v) used ≡ false)
free_number used h = elim (free_or_full 3990 used) [
  | inl free ↦ free
  | inr full ↦ let k = used_places 3990 used full in absurd (omega arith)
]

-- What the inner loop ends with.
abbrev IsFound : List ℕ → Rng → Option ℕ → Rng → Type 0
IsFound used r none s = ⊥
IsFound used r (some id) s =
    (s.draws ≡ r.draws) × (is_used_id id used ≡ false) × (10 ≤ id) × (id < 4000)

draw_id-IsFound :
    (f : ℕ) (used : List ℕ) (r : Rng) (j : ℕ)
    → j < f
    → is_used_id (10 + r.draws (r.drawn + j) % 3990) used ≡ false
    → IsFound used r (draw_id f used r).0 (draw_id f used r).1
unfolding draw_id intn
draw_id-IsFound zero used r j l h = absurd (omega arith)
draw_id-IsFound (suc f) used r j l h =
    let k = r.draws r.drawn % 3990 in
    elim (Bool-cases (is_used_id (10 + k) used)) [
      | inr t ↦ rw (t, draw_id) (refl, t, omega arith, omega arith)
      | inl t ↦ elim (Bool-cases (j == 0)) [
        | inl z ↦
            let e : r.drawn + j ≡ r.drawn = ground arith in
            let q = rw e at h in absurd (ground arith)
        | inr z ↦
            let e : r.drawn + j ≡ r.drawn + 1 + (j - 1) = ground arith in
            let q = rw e at h in
            rw (t, draw_id)
              (draw_id-IsFound f used (record r { drawn = r.drawn + 1 }) (j - 1) (ground arith) q)
      ]
    ]

draw_id_new :
    (f : ℕ) (used : List ℕ) (r : Rng)
    → IsFair f r.draws
    → length used < 3990
    → IsFound used r (draw_id f used r).0 (draw_id f used r).1
draw_id_new f used r fair h =
    let (v, l, e) = free_number used h in
    let (j, k, q) = fair r.drawn v l in draw_id-IsFound f used r j k (rw q e)

draws-intn : (n : ℕ) (r : Rng) → (intn n r).1.draws ≡ r.draws
unfolding intn
draws-intn zero r = refl
draws-intn (suc n) r = refl

draws-vlan_of : (i id : ℕ) (r : Rng) → (vlan_of i id r).1.draws ≡ r.draws
unfolding vlan_of
draws-vlan_of i id r = draws-intn (length vlan_roles) r

id-vlan_of : (i id : ℕ) (r : Rng) → (vlan_of i id r).0.id ≡ id
unfolding vlan_of
id-vlan_of i id r = refl

in_front-AreVlans :
    (used : List ℕ) (n : ℕ) (v : Vlan) (o : Option (List Vlan))
    → (is_used_id v.id used ≡ false) × (10 ≤ v.id) × (v.id < 4000)
    → AreVlans (v.id ∷ used) n o
    → AreVlans used (suc n) (in_front v o)
in_front-AreVlans used n v none c h = h
in_front-AreVlans used n v (some vs) c h = (ap suc h.0, (c.0, c.1, c.2, h.1))

vlans_from-AreVlans :
    (f i left : ℕ) (used : List ℕ) (r : Rng)
    → IsFair f r.draws
    → length used + left ≤ 3990
    → AreVlans used left (vlans_from f i left used r).0
unfolding vlans_from
vlans_from-AreVlans f i zero used r fair h = (refl, tt)
vlans_from-AreVlans f i (suc left) used r fair h =
    let found = draw_id_new f used r fair (omega arith) in
    let s = (draw_id f used r).1 in
    elim (Option-cases (draw_id f used r).0) [
      | inl e ↦ let q = rw e at found in absurd q
      | inr (id, e) ↦
          let q = rw e at found in
          let v = vlan_of i id s in
          let k : v.0.id ≡ id = id-vlan_of i id s in
          let d : v.1.draws ≡ r.draws = draws-vlan_of i id s ∙ q.0 in
          let rest = vlans_from-AreVlans f (i + 1) left (id ∷ used) v.1 (rw d fair) (omega arith) in
          rw (e, vlans_from, AreVlans)
            (in_front-AreVlans used left v.0 (vlans_from f (i + 1) left (id ∷ used) v.1).0
              (rw k (q.1, q.2, q.3)) (rw k rest))
    ]

-- Of up to 3989 VLANs every one gets a number, if the fuel is a number of draws in which each number
-- comes up: the numbers are from 10 to 3999, and no two VLANs have the same.
pub build_vlans-AreVlans :
    (f n : ℕ) (r : Rng) → IsFair f r.draws → n ≤ 3989 → AreVlans (1 ∷ []) n (build_vlans f n r).0
unfolding build_vlans
build_vlans-AreVlans f n r fair h = vlans_from-AreVlans f 0 n (1 ∷ []) r fair (omega arith)
