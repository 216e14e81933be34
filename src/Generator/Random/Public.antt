-- ===== src/Generator/Random/Public.antt =====
-- A public address is found, and it is in no range that is avoided.
use rconfig_sim.Base.{
  ◌==◌, Bool-cases, Bytes, ℕ, zero, suc, ◌+◌, ◌-◌, ◌%◌, ◌≤◌, ◌<◌, ◌≡◌, refl, inl, inr, false,
  Option, none, some, arith,
}
use rconfig_sim.Generator.Random.{quad, is_avoided, random_public_ip}
use rconfig_sim.Fault.{intn, intn_lt, Rng}

-- An address from a.b.c.1 to a.b.c.254 whose first byte is from 1 to 222 and not avoided.
abbrev pub IsPublic : Option Bytes → Type 0
IsPublic none = ⊥
IsPublic (some ip) =
    (a : ℕ) × (b : ℕ) × (c : ℕ) × (d : ℕ) × (ip ≡ quad a b c d)
    × (is_avoided a ≡ false)
    × (1 ≤ a)
    × (a ≤ 222)
    × (b < 256)
    × (c < 256)
    × (1 ≤ d)
    × (d ≤ 254)

-- If one of the next f draws gives a first byte that will do, a public address is drawn.
pub random_public_ip-IsPublic :
    (f : ℕ) (r : Rng) (j : ℕ)
    → j < f
    → is_avoided (1 + r.draws (r.drawn + j) % 222) ≡ false
    → IsPublic (random_public_ip f r).0
unfolding random_public_ip intn
random_public_ip-IsPublic zero r j l h = absurd (omega arith)
random_public_ip-IsPublic (suc f) r j l h =
    let k = r.draws r.drawn % 222 in
    elim (Bool-cases (is_avoided (1 + k))) [
      | inr t ↦
          let first : Rng = record r { drawn = r.drawn + 1 } in
          let b = intn 256 first in
          let c = intn 256 b.1 in
          let d = intn 254 c.1 in
          rw (t, random_public_ip)
            (
              1 + k,
              b.0,
              c.0,
              1 + d.0,
              refl,
              t,
              omega arith,
              omega arith,
              intn_lt 256 first (omega arith),
              intn_lt 256 b.1 (omega arith),
              omega arith,
              (let m = intn_lt 254 c.1 (omega arith) in omega arith),
            )
      | inl t ↦ elim (Bool-cases (j == 0)) [
        | inl z ↦
            let e : r.drawn + j ≡ r.drawn = ground arith in
            let q = rw e at h in absurd (ground arith)
        | inr z ↦
            let e : r.drawn + j ≡ r.drawn + 1 + (j - 1) = ground arith in
            let q = rw e at h in
            rw (t, random_public_ip)
              (random_public_ip-IsPublic f (record r { drawn = r.drawn + 1 }) (j - 1) (ground arith)
                q)
      ]
    ]
