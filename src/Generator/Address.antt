-- ===== src/Generator/Address.antt =====
-- internal/configs/random.go: `ipPlusOffset` and the masks. An address is a number below 2^32.
pub mod Distinct
use rconfig_sim.Text.{split}
use rconfig_sim.Base.{
  ltb, ◌==◌, if◌then◌else◌, Bytes, ℕ, ◌+◌, ◌-◌, ◌*◌, ◌/◌, ◌%◌, ◌^◌, Option, none, some, List, [],
  ◌∷◌, ◌++◌,
}
use rconfig_sim.Text.Decimal.{decimal, value_of}

-- The four bytes of a number in dotted form.
unfoldable pub dotted : ℕ → Bytes
dotted v =
    decimal (v / 2 ^ 24 % 256)
    ++ (b'.'
        ∷ (decimal (v / 2 ^ 16 % 256)
            ++ (b'.' ∷ (decimal (v / 2 ^ 8 % 256) ++ (b'.' ∷ decimal (v % 256))))))

-- One part of an address: no leading zero, at most 255.
unfoldable pub octet : Bytes → Option ℕ
octet [] = none
octet (c ∷ []) = value_of 0 (c ∷ [])
octet (c ∷ d ∷ s) =
    if c == b'0'
    then none
    else elim (value_of 0 (c ∷ d ∷ s)) [ none ↦ none | some n ↦ if ltb n 256 then some n else none ]

abbrev join_octets : Option ℕ → Option ℕ → Option ℕ → Option ℕ → Option ℕ
join_octets (some a) (some b) (some c) (some d) = some (a * 2 ^ 24 + b * 2 ^ 16 + c * 2 ^ 8 + d)
join_octets _ _ _ _ = none

abbrev four_parts : List Bytes → Option ℕ
four_parts (a ∷ b ∷ c ∷ d ∷ []) = join_octets (octet a) (octet b) (octet c) (octet d)
four_parts _ = none

-- `net.ParseIP(s).To4()`, of an address in dotted form.
unfoldable pub parse_ipv4 : Bytes → Option ℕ
unfolding octet
parse_ipv4 s = four_parts (split s b'.')

-- `ipPlusOffset`, of an offset that is not negative.
unfoldable pub ip_plus_offset : Bytes → ℕ → Bytes
unfolding parse_ipv4 dotted
ip_plus_offset base offset = elim (parse_ipv4 base) [
  | none ↦ base
  | some val ↦ dotted ((val + offset) % 2 ^ 32)
]

abbrev pub cap_prefix : ℕ → ℕ
cap_prefix prefix_len = if ltb 32 prefix_len then 32 else prefix_len

-- `wildcardFor`, of a prefix length that is not negative.
unfoldable pub wildcard_for : ℕ → Bytes
unfolding dotted
wildcard_for prefix_len = dotted ((2 ^ 32 - 1) / 2 ^ cap_prefix prefix_len)

-- `netmaskFor`.
unfoldable pub netmask_for : ℕ → Bytes
unfolding dotted
netmask_for prefix_len = dotted ((2 ^ 32 - 1) * 2 ^ (32 - cap_prefix prefix_len) % 2 ^ 32)
