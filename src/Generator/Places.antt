-- ===== src/Generator/Places.antt =====
-- Where the devices of a run stand.
use rconfig_sim.Base.{ℕ, ◌+◌, ◌*◌, ◌/◌, ◌%◌, ◌≤◌, ◌<◌, ◌≡◌, sym, ap, ◌∙◌, ◌≢◌, true, arith}
use native.Mathlib.Nat.{div-lt_iff_lt-mul, mod-lt, div-add-mod}
use rconfig_sim.Generator.{place, fits}

-- In a run that the checks let through, every device stands on one of the addresses and on one of the
-- ports of an address, and no two devices stand in one place.
pub place-fits :
    (count ip_count devices_per_ip port_start i j : ℕ)
    → fits count ip_count devices_per_ip ≡ true
    → i < count
    → j < count
    → i ≢ j
    → ((place devices_per_ip port_start i).0 < ip_count)
      × (port_start ≤ (place devices_per_ip port_start i).1)
      × ((place devices_per_ip port_start i).1 < port_start + devices_per_ip)
      × (place devices_per_ip port_start i ≢ place devices_per_ip port_start j)
unfolding fits place
place-fits count ip_count d p i j f hi hj n =
    let pos : 0 < d = ground arith in
    let room : count ≤ ip_count * d = ground arith in
    let low : i / d < ip_count = (div-lt_iff_lt-mul pos).1 (omega arith) in
    let m = mod-lt i pos in
    let a = div-add-mod i d in
    let b = div-add-mod j d in
    (
      low,
      omega arith,
      omega arith,
      λ e.
          let q : i / d ≡ j / d = ap (λ (x : ℕ × ℕ). x.0) e in
          let r : p + i % d ≡ p + j % d = ap (λ (x : ℕ × ℕ). x.1) e in
          let s : i % d ≡ j % d = omega arith in
          n (sym a ∙ (ap (λ (x : ℕ). d * x + i % d) q ∙ (ap (λ (x : ℕ). d * (j / d) + x) s ∙ b))),
    )
