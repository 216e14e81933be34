-- ===== src/Profiles/Assign/Shares.antt =====
-- Which rule a device falls under.
use Prim.Native.Nat.{bit_xor}
use rconfig_sim.Profiles.{Rule}
use rconfig_sim.Fault.{one, Float64, finite}
use rconfig_sim.Floats.{spacing, round, too_large, pack, add, less}
use rconfig_sim.Session.{Profile}
use rconfig_sim.Profiles.Assign.{
  mix64, fnv1a, little_endian, hash_device, point_of, assign_from, assign,
}
use rconfig_sim.Base.{
  lt→ltb, Bool-cases, Bytes, ℕ, ◌/◌, ◌^◌, ◌<◌, ◌≡◌, refl, inl, inr, true, false, some, List, [],
  ◌∷◌, ◌++◌, arith,
}
use rconfig_sim.Words.Mixing.{xor_shift-lt, mul64-lt, xor_shift-injective, mul64-injective}
use rconfig_sim.Words.{xor_shift, mul64}

-- The finaliser maps no two words to one.
pub mix64-injective : (x y : ℕ) → x < 2 ^ 64 → y < 2 ^ 64 → mix64 x ≡ mix64 y → x ≡ y
unfolding mix64
mix64-injective x y h k e =
    let a = λ (z : ℕ). mul64 0xbf58476d1ce4e5b9 (xor_shift 30 z) in
    let b = λ (z : ℕ). mul64 0x94d049bb133111eb (xor_shift 27 (a z)) in
    let al = λ (z : ℕ). mul64-lt 0xbf58476d1ce4e5b9 (xor_shift 30 z) in
    let bl = λ (z : ℕ). mul64-lt 0x94d049bb133111eb (xor_shift 27 (a z)) in
    let p = xor_shift-injective 31 (b x) (b y) (out_31 (b x) (bl x)) (out_31 (b y) (bl y)) e in
    let q =
      mul64-injective 0x94d049bb133111eb 0x319642b2d24d8ec3 2077064247507883091 (xor_shift 27 (a x))
        (xor_shift 27 (a y)) (omega arith) (xor_shift-lt 27 (a x) (al x))
        (xor_shift-lt 27 (a y) (al y)) p in
    let r = xor_shift-injective 27 (a x) (a y) (out_27 (a x) (al x)) (out_27 (a y) (al y)) q in
    let s =
      mul64-injective 0xbf58476d1ce4e5b9 0x96de1b173f119089 8125545580553827436 (xor_shift 30 x)
        (xor_shift 30 y) (omega arith) (xor_shift-lt 30 x h) (xor_shift-lt 30 y k) r in
    xor_shift-injective 30 x y (out_30 x h) (out_30 y k) s
  where
    out_31 : (z : ℕ) → z < 2 ^ 64 → z / 2 ^ 31 / 2 ^ 31 / 2 ^ 31 ≡ 0
    out_31 z l = omega arith

    out_27 : (z : ℕ) → z < 2 ^ 64 → z / 2 ^ 27 / 2 ^ 27 / 2 ^ 27 ≡ 0
    out_27 z l = omega arith

    out_30 : (z : ℕ) → z < 2 ^ 64 → z / 2 ^ 30 / 2 ^ 30 / 2 ^ 30 ≡ 0
    out_30 z l = omega arith

assign_from-append :
    (point edge : Float64) (rules more : List Rule) (p : Profile)
    → assign_from point edge rules ≡ some p
    → assign_from point edge (rules ++ more) ≡ some p
unfolding assign_from
assign_from-append point edge [] more p h = absurd (ground arith)
assign_from-append point edge (r ∷ rules) more p h =
    elim (Bool-cases (less point (add edge r.fraction))) [
      | inl t ↦ let k = rw t at h in rw t k
      | inr t ↦
          let k = rw t at h in rw t (assign_from-append point (add edge r.fraction) rules more p k)
    ]

mix64-lt : (x : ℕ) → x < 2 ^ 64 → mix64 x < 2 ^ 64
unfolding mix64
mix64-lt x h = xor_shift-lt 31 _ (mul64-lt _ _)

fnv1a-lt : (h : ℕ) (s : Bytes) → h < 2 ^ 64 → fnv1a h s < 2 ^ 64
unfolding fnv1a
fnv1a-lt h [] l = l
fnv1a-lt h (b ∷ s) l = fnv1a-lt (mul64 1099511628211 (bit_xor h b)) s (mul64-lt _ _)

whole : add (finite false 0) (finite false one) ≡ finite false one
unfolding add round pack spacing one too_large
whole = refl

point_below_one : (hash : ℕ) → hash < 2 ^ 64 → less (point_of hash) (finite false one) ≡ true
unfolding less point_of one
point_below_one hash h = let m = mix64-lt hash h in lt→ltb _ _ (omega arith)

-- A device that the rules give a profile keeps it when rules are added behind them, and a first rule
-- for the whole fleet, of the fraction 1, takes every device.
pub assign-append :
    (hostname : Bytes) (seed : ℕ) (r : Rule) (rules more : List Rule)
    → ((p : Profile)
        → assign hostname seed rules ≡ some p
        → assign hostname seed (rules ++ more) ≡ some p)
      × (r.fraction ≡ finite false one → assign hostname seed (r ∷ rules) ≡ some r.profile)
unfolding assign
assign-append hostname seed r rules more =
    let point = point_of (hash_device hostname seed) in
    let l : hash_device hostname seed < 2 ^ 64 =
      unfold hash_device in
      fnv1a-lt (fnv1a 14695981039346656037 (little_endian 8 seed)) hostname
        (fnv1a-lt 14695981039346656037 (little_endian 8 seed) (omega arith)) in
    (
      assign_from-append point (finite false 0) rules more,
      λ e.
          let t : less point (add (finite false 0) r.fraction) ≡ true =
            rw (e, whole) (point_below_one (hash_device hostname seed) l) in
          rw (t, assign_from) refl,
    )
