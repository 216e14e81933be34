-- ===== src/Generator/Gateway/Elements.antt =====
-- The remote elements of a gateway have different names, and there are five at most.
use rconfig_sim.Text.Decimal.Parsing.{decimal_padded-injective}
use rconfig_sim.Text.Decimal.{decimal_padded}
use rconfig_sim.Base.{
  ltb, ◌==◌, Bool-cases, length, length-append, All, Bytes, codes, equal, equal_iff, ℕ, zero, suc,
  ◌+◌, ◌-◌, ◌%◌, ◌≤◌, ◌≡◌, refl, ap, ◌∙◌, inl, inr, Bool, true, false, List, [], ◌∷◌, ◌++◌, map,
  arith, equal_comm,
}
use rconfig_sim.Text.{to_upper}
use rconfig_sim.Generator.Shelf.{city_syllables, build_ciena_shelf, FleetConfig, CienaShelf}
use rconfig_sim.Generator.Random.{device_rand, pick}
use rconfig_sim.Generator.Gateway.{
  link_tid, link_rnes, rne_tid, is_used, draw_shared, build_shared_rne_shelf, build_private_shelf,
  build_rne, build_rnes, build_ciena_gne,
}
use rconfig_sim.Fault.{intn, intn_lt, Rng}

-- No name stands twice.
abbrev pub AllDistinct : List Bytes → Type 0
AllDistinct [] = Unit
AllDistinct (t ∷ ts) = (is_used t ts ≡ false) × AllDistinct ts

abbrev pub Unused : List Bytes → List Bytes → Type 0
Unused used ts = All (λ (t : Bytes). is_used t used ≡ false) ts

abbrev pub names : List CienaShelf → List Bytes
names [] = []
names (r ∷ rs) = r.sid ∷ names rs

pub Unused-split :
    (tid : Bytes) (used ts : List Bytes)
    → Unused (tid ∷ used) ts
    → (is_used tid ts ≡ false) × Unused used ts
unfolding is_used
Unused-split tid used [] h = (refl, tt)
Unused-split tid used (t ∷ ts) h =
    let (a, b) = Unused-split tid used ts h.1 in
    let e = equal_comm t tid in let k = h.0 in (ground arith, (ground arith, b))

is_used-append :
    (u : Bytes) (us ts : List Bytes)
    → is_used u us ≡ false
    → is_used u ts ≡ false
    → is_used u (us ++ ts) ≡ false
unfolding is_used
is_used-append u [] ts p q = q
is_used-append u (v ∷ us) ts p q =
    let a : is_used u us ≡ false = ground arith in
    let b = is_used-append u us ts a q in ground arith

AllDistinct-append :
    (us ts : List Bytes) → AllDistinct us → AllDistinct ts → Unused us ts → AllDistinct (us ++ ts)
AllDistinct-append [] ts d e h = e
AllDistinct-append (u ∷ us) ts d e h =
    let (a, b) = Unused-split u us ts h in
    (is_used-append u us ts d.0 a, AllDistinct-append us ts d.1 e b)

module _ (sha256 : Bytes → Bytes) (new_source : ℕ → Rng) (cfg : FleetConfig) where
  build_rne-sid :
      (index : ℕ) (tid : Bytes) (shared : Bool) (r : Rng)
      → (build_rne sha256 new_source cfg index tid shared r).0.sid ≡ tid
  unfolding build_rne build_shared_rne_shelf build_private_shelf
  build_rne-sid index tid true r = refl
  build_rne-sid index tid false r = refl

  build_rnes-AllDistinct :
      (index left : ℕ) (used : List Bytes) (r : Rng)
      → AllDistinct (names (build_rnes sha256 new_source cfg index left used r).0)
        × Unused used (names (build_rnes sha256 new_source cfg index left used r).0)
        × (length (build_rnes sha256 new_source cfg index left used r).0 ≤ left)
  unfolding build_rnes
  build_rnes-AllDistinct index zero used r = (tt, tt, omega arith)
  build_rnes-AllDistinct index (suc left) used r =
      let (city, r1) = pick city_syllables r in
      let (shared, r2) = draw_shared cfg r1 in
      let tid = rne_tid cfg (to_upper city) index shared in
      elim (Bool-cases (is_used tid used)) [
        | inl t ↦
            let (a, b, c) = build_rnes-AllDistinct index left used r2 in
            rw (t, build_rnes) (a, b, omega arith)
        | inr t ↦
            let (x, r3) = build_rne sha256 new_source cfg index tid shared r2 in
            let e = build_rne-sid index tid shared r2 in
            let (a, b, c) = build_rnes-AllDistinct index left (tid ∷ used) r3 in
            let rs = (build_rnes sha256 new_source cfg index left (tid ∷ used) r3).0 in
            let (p, q) = Unused-split tid used (names rs) b in
            let u : is_used x.sid (names rs) ≡ false = rw e p in
            let v : is_used x.sid used ≡ false = rw e t in
            rw (t, build_rnes) ((u, a), (v, q), omega arith)
      ]

  names-shared :
      (tids : List Bytes)
      → names (map (λ (t : Bytes). build_shared_rne_shelf sha256 new_source cfg t) tids) ≡ tids
  unfolding build_shared_rne_shelf
  names-shared [] = refl
  names-shared (t ∷ ts) = ap (◌∷◌ t) (names-shared ts)

names-append : (rs ts : List CienaShelf) → names (rs ++ ts) ≡ names rs ++ names ts
names-append [] ts = refl
names-append (r ∷ rs) ts = ap (◌∷◌ r.sid) (names-append rs ts)

length-map {ℓ κ} :
    {A : Type ℓ} {B : Type κ} (f : A → B) (xs : List A) → length (map f xs) ≡ length xs
length-map f [] = refl
length-map f (x ∷ xs) = ap suc (length-map f xs)

drop-codes : (a s t : Bytes) → a ++ s ≡ a ++ t → s ≡ t
drop-codes [] s t e = e
drop-codes (c ∷ a) s t e = drop-codes a s t (cc)

link_tid_next : (i : ℕ) → equal (link_tid (i + 1)) (link_tid i) ≡ false
link_tid_next i = elim (Bool-cases (equal (link_tid (i + 1)) (link_tid i))) [
  | inr t ↦ t
  | inl t ↦
      let e = (equal_iff (link_tid (i + 1)) (link_tid i)).0 t in
      let d =
        drop-codes (codes "RNE-LINK") (decimal_padded 4 ((i + 1) % 10000))
          (decimal_padded 4 (i % 10000)) (unfold link_tid in e) in
      let n = decimal_padded-injective 4 ((i + 1) % 10000) (i % 10000) d in absurd (omega arith)
]

two_distinct :
    (a b : Bytes)
    → equal b a ≡ false
    → AllDistinct (a ∷ b ∷ []) × (length {A = Bytes} (a ∷ b ∷ []) ≤ 2)
unfolding is_used
two_distinct a b h = ((ground arith, (refl, tt)), omega arith)

link_rnes-AllDistinct :
    (cfg : FleetConfig) (i : ℕ) → AllDistinct (link_rnes cfg i) × (length (link_rnes cfg i) ≤ 2)
unfolding link_rnes is_used
link_rnes-AllDistinct cfg i = elim (Bool-cases (cfg.rne_dual_home_pct == 0)) [
  | inl p ↦ simp p (tt, omega arith)
  | inr p ↦ elim (Bool-cases (ltb (i + 1) cfg.count)) [
    | inr q ↦ elim (Bool-cases (ltb 0 i)) [
      | inl t ↦ simp (p, q, t) ((refl, tt), omega arith)
      | inr t ↦ simp (p, q, t) (tt, omega arith)
    ]
    | inl q ↦ elim (Bool-cases (ltb 0 i)) [
      | inr t ↦ simp (p, q, t) ((refl, tt), omega arith)
      | inl t ↦
          let e : i - 1 + 1 ≡ i = ground arith in
          let d = rw e at (link_tid_next (i - 1)) in
          simp (p, q, t) (two_distinct (link_tid (i - 1)) (link_tid i) d)
    ]
  ]
]

-- Whatever is drawn, the remote elements of a gateway have different names, and there are five at
-- most.
pub build_ciena_gne-AllDistinct :
    (sha256 : Bytes → Bytes) (new_source : ℕ → Rng) (cfg : FleetConfig) (index : ℕ)
    → AllDistinct (names (build_ciena_gne sha256 new_source cfg index).rnes)
      × (length (build_ciena_gne sha256 new_source cfg index).rnes ≤ 5)
unfolding build_ciena_gne
build_ciena_gne-AllDistinct sha256 new_source cfg index =
    let r = (build_ciena_shelf sha256 cfg index (device_rand new_source cfg.seed index)).1 in
    let (n, s) = intn 4 r in
    let nl = intn_lt 4 r (omega arith) in
    let links = link_rnes cfg index in
    let (ld, ll) = link_rnes-AllDistinct cfg index in
    let f = λ (t : Bytes). build_shared_rne_shelf sha256 new_source cfg t in
    let left = 2 + n - length links in
    let (a, b, c) = build_rnes-AllDistinct sha256 new_source cfg index left links s in
    let rs = (build_rnes sha256 new_source cfg index left links s).0 in
    let e : names (map f links ++ rs) ≡ links ++ names rs =
      names-append (map f links) rs
      ∙ ap (λ (l : List Bytes). l ++ names rs) (names-shared sha256 new_source cfg links) in
    let m = length-append (map f links) rs in
    let k = length-map f links in (rw e (AllDistinct-append links (names rs) ld a b), omega arith)
