-- ===== src/Generator/Random.antt =====
-- internal/configs/random.go: what is drawn for a device. A function that draws takes the generator
-- and gives it back; `new_source` is `rand.New(rand.NewSource(seed))`, of the seed as a 64-bit word.
pub mod Seeds
pub mod Public
use rconfig_sim.Base.{
  ◌==◌, if◌then◌else◌, length, get_or, take, Bytes, codes, ℕ, zero, suc, ◌+◌, ◌/◌, ◌%◌, Bool, ◌||◌,
  Option, none, some, List, [], ◌∷◌, ◌++◌,
}
use rconfig_sim.Text.Decimal.{decimal}
use rconfig_sim.Text.{to_upper}
use Prim.Native.Nat.{bit_xor}
use rconfig_sim.Words.{xor_shift, mul64}
use rconfig_sim.Fault.{intn, Rng}

abbrev pub Draw : Type 0 → Type 0
Draw A = Rng → A × Rng

infixl 5 ◌>>=◌
abbrev pub ◌>>=◌ : {A B : Type 0} → Draw A → (A → Draw B) → Draw B
◌>>=◌ m f r = let (a, later) = m r in f a later

abbrev pub give : {A : Type 0} → A → Draw A
give a r = (a, r)

-- The seed of `deviceRand`, of a seed and an index that are 64-bit words.
unfoldable pub device_seed : ℕ → ℕ → ℕ
unfolding xor_shift mul64
device_seed seed index =
    let a = bit_xor seed (mul64 2654435761 index) in
    let b = mul64 0xff51afd7ed558ccd (xor_shift 33 a) in
    let c = mul64 0xc4ceb9fe1a85ec53 (xor_shift 33 b) in xor_shift 33 c

-- `deviceRand`.
abbrev pub device_rand : (ℕ → Rng) → ℕ → ℕ → Rng
device_rand new_source seed index = new_source (device_seed seed index)

-- A byte of an alphabet, and an entry of a list.
unfoldable pub pick : List Bytes → Draw Bytes
pick words = do i ← intn (length words); give (get_or words i [])

-- n bytes of an alphabet.
unfoldable pub letters : Bytes → ℕ → Draw Bytes
letters alpha zero = give []
letters alpha (suc n) = do i ← intn (length alpha); s ← letters alpha n; give (get_or alpha i 0 ∷ s)

abbrev pub pw_hash_alphabet : Bytes
pw_hash_alphabet = codes "abcdefghijklmnopqrstuvwxyzABCDEFGHIJKLMNOPQRSTUVWXYZ0123456789./"

-- `pseudoCiscoMD5`.
unfoldable pub pseudo_cisco_md5 : Draw Bytes
unfolding letters
pseudo_cisco_md5 = do
  salt ← letters pw_hash_alphabet 4
  hash ← letters pw_hash_alphabet 22
  give (codes "$1$" ++ (salt ++ (b'$' ∷ hash)))

abbrev pub community_alphabet : Bytes
community_alphabet = codes "abcdefghjkmnpqrstuvwxyzABCDEFGHJKLMNPQRSTUVWXYZ"

-- `snmpCommunity`.
unfoldable pub snmp_community : Draw Bytes
unfolding letters
snmp_community = letters community_alphabet 10

-- `siteCode`, of a number that is not negative.
unfoldable pub site_code : ℕ → Bytes
site_code k =
    let n = k % 17576 in (b'a' + n / 26 / 26 % 26) ∷ (b'a' + n / 26 % 26) ∷ (b'a' + n % 26) ∷ []

abbrev hex_digits : Bytes
hex_digits = codes "0123456789abcdef"

-- `hex.EncodeToString`.
unfoldable pub hex : Bytes → Bytes
hex [] = []
hex (b ∷ s) = get_or hex_digits (b / 16) 0 ∷ get_or hex_digits (b % 16) 0 ∷ hex s

-- `serialFor`; `sha256` is `sha256.Sum256`.
unfoldable pub serial_for : (Bytes → Bytes) → Bytes → Bytes
unfolding hex
serial_for sha256 hostname = codes "FOC" ++ to_upper (take 8 (hex (sha256 hostname)))

-- `%d.%d.%d.%d` of four numbers.
unfoldable pub quad : ℕ → ℕ → ℕ → ℕ → Bytes
quad a b c d = decimal a ++ (b'.' ∷ (decimal b ++ (b'.' ∷ (decimal c ++ (b'.' ∷ decimal d)))))

-- `randomMgmtIP`.
unfoldable pub random_mgmt_ip : Draw Bytes
unfolding quad
random_mgmt_ip = do b ← intn 256; c ← intn 256; d ← intn 254; give (quad 10 b c (1 + d))

abbrev random_172 : Draw Bytes
random_172 = do b ← intn 16; c ← intn 256; d ← intn 254; give (quad 172 (16 + b) c (1 + d))

abbrev random_192 : Draw Bytes
random_192 = do c ← intn 256; d ← intn 254; give (quad 192 168 c (1 + d))

-- `randomRFC1918`.
unfoldable pub random_rfc1918 : Draw Bytes
unfolding random_mgmt_ip quad
random_rfc1918 = do
  block ← intn 3
  if block == 0 then random_mgmt_ip else if block == 1 then random_172 else random_192

abbrev pub is_avoided : ℕ → Bool
is_avoided a = a == 10 || (a == 127 || (a == 172 || a == 192))

-- `randomPublicIP`: it draws until the first byte will do. `none` where the fuel runs out.
unfoldable pub random_public_ip : ℕ → Draw (Option Bytes)
unfolding quad
random_public_ip zero = give none
random_public_ip (suc f) = do
  k ← intn 222
  let again = random_public_ip f
  let found = (do b ← intn 256; c ← intn 256; d ← intn 254; give (some (quad (1 + k) b c (1 + d))))
  if is_avoided (1 + k) then again else found

-- `randomIPs`.
unfoldable pub random_ips : ℕ → Draw Bytes → Draw (List Bytes)
random_ips zero f = give []
random_ips (suc n) f = do ip ← f; ips ← random_ips n f; give (ip ∷ ips)
