-- ===== src/Profiles/Assign.antt =====
-- internal/profile/profile.go: `Assign`, which places a device by its hostname and the seed.
pub mod Shares
use rconfig_sim.Base.{
  if◌then◌else◌, Bytes, ℕ, zero, suc, ◌*◌, ◌/◌, ◌%◌, ◌^◌, false, Option, none, some, List, [], ◌∷◌,
}
use Prim.Native.Nat.{bit_xor}
use rconfig_sim.Words.{xor_shift, mul64}
use rconfig_sim.Fault.{Float64, finite}
use rconfig_sim.Floats.{add, less}
use rconfig_sim.Profiles.{Rule}
use rconfig_sim.Session.{Profile}

-- `mix64`.
unfoldable pub mix64 : ℕ → ℕ
unfolding xor_shift mul64
mix64 x =
    let a = mul64 0xbf58476d1ce4e5b9 (xor_shift 30 x) in
    let b = mul64 0x94d049bb133111eb (xor_shift 27 a) in xor_shift 31 b

-- `fnv.New64a` and `Write`.
unfoldable pub fnv1a : ℕ → Bytes → ℕ
unfolding mul64
fnv1a h [] = h
fnv1a h (b ∷ s) = fnv1a (mul64 1099511628211 (bit_xor h b)) s

-- The first bytes of a word, from the lowest: `binary.LittleEndian.PutUint64` for eight.
unfoldable pub little_endian : ℕ → ℕ → Bytes
little_endian zero x = []
little_endian (suc n) x = x % 256 ∷ little_endian n (x / 256)

-- `h.Sum64()`, of a seed that is a 64-bit word.
unfoldable pub hash_device : Bytes → ℕ → ℕ
unfolding fnv1a little_endian
hash_device hostname seed = fnv1a (fnv1a 14695981039346656037 (little_endian 8 seed)) hostname

-- The point in [0, 1): the upper 53 bits, as multiples of 2^-53.
unfoldable pub point_of : ℕ → Float64
unfolding mix64
point_of hash = finite false (mix64 hash / 2 ^ 11 * 2 ^ 1021)

-- The loop over the rules, with the edge so far.
unfoldable pub assign_from : Float64 → Float64 → List Rule → Option Profile
unfolding add less
assign_from point edge [] = none
assign_from point edge (r ∷ rules) =
    let next = add edge r.fraction in
    let rest = assign_from point next rules in if less point next then some r.profile else rest

-- `Assign`.
unfoldable pub assign : Bytes → ℕ → List Rule → Option Profile
unfolding hash_device point_of assign_from
assign hostname seed rules =
    assign_from (point_of (hash_device hostname seed)) (finite false 0) rules
