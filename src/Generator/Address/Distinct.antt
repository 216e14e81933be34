-- ===== src/Generator/Address/Distinct.antt =====
-- An address is read back from its dotted form, and no two offsets give one address.
use rconfig_sim.Text.Decimal.Parsing.{decimal-Lacks}
use rconfig_sim.Text.{split}
use rconfig_sim.Base.{
  ◌==◌, Option-cases, Bytes, Lacks, ℕ, zero, suc, ◌+◌, ◌/◌, ◌%◌, ◌^◌, ◌<◌, ◌≡◌, refl, sym, ap, ◌∙◌,
  inl, inr, Bool, true, false, ◌&&◌, none, some, [], ◌∷◌, arith,
}
use rconfig_sim.Text.Split.{split-sep, split-Lacks}
use rconfig_sim.Text.Decimal.{decimal, is_digit, value_of}
use rconfig_sim.Generator.Address.{dotted, octet, parse_ipv4, ip_plus_offset}

abbrev reads : ℕ → Bool
reads n = elim (octet (decimal n)) [ none ↦ false | some m ↦ m == n ]

-- Whether the octets below a bound are read back.
abbrev octets_read : ℕ → Bool
octets_read zero = true
octets_read (suc top) = octets_read top && reads top

octets_read-reads : (top : ℕ) → octets_read top ≡ true → (n : ℕ) → n < top → reads n ≡ true
octets_read-reads zero h n l = absurd (omega arith)
octets_read-reads (suc top) h n l = ground (arith, octets_read-reads top (ground arith) n)

octet_table : octets_read 256 ≡ true
unfolding octet decimal value_of
octet_table = refl

octet-decimal : (n : ℕ) → n < 256 → octet (decimal n) ≡ some n
octet-decimal n h =
    let k = octets_read-reads 256 octet_table n h in
    elim (Option-cases (octet (decimal n))) [
      | inl e ↦ absurd (ground arith)
      | inr (m, e) ↦ ground arith
    ]

no_dot : (n : ℕ) → Lacks b'.' (decimal n)
no_dot n = decimal-Lacks b'.' n (unfold is_digit in refl)

split-dotted :
    (v : ℕ)
    → split (dotted v) b'.'
      ≡ decimal (v / 2 ^ 24 % 256)
        ∷ decimal (v / 2 ^ 16 % 256)
        ∷ decimal (v / 2 ^ 8 % 256)
        ∷ decimal (v % 256)
        ∷ []
unfolding dotted
split-dotted v =
    let a = v / 2 ^ 24 % 256 in
    let b = v / 2 ^ 16 % 256 in
    let c = v / 2 ^ 8 % 256 in
    rw (split-sep (decimal a) _ b'.' (no_dot a)) (
      rw (split-sep (decimal b) _ b'.' (no_dot b)) (
        rw (split-sep (decimal c) _ b'.' (no_dot c))
          (rw (split-Lacks (decimal (v % 256)) b'.' (no_dot (v % 256))) refl)))

pub parse_ipv4-dotted : (v : ℕ) → v < 2 ^ 32 → parse_ipv4 (dotted v) ≡ some v
unfolding parse_ipv4
parse_ipv4-dotted v h = rw (split-dotted v) (
    rw (octet-decimal (v / 2 ^ 24 % 256) (omega arith)) (
      rw (octet-decimal (v / 2 ^ 16 % 256) (omega arith)) (
        rw (octet-decimal (v / 2 ^ 8 % 256) (omega arith))
          (rw (octet-decimal (v % 256) (omega arith)) (ground arith)))))

-- Two offsets below 2^32 from an address give two addresses.
pub ip_plus_offset-injective :
    (base : Bytes) (v i j : ℕ)
    → parse_ipv4 base ≡ some v
    → i < 2 ^ 32
    → j < 2 ^ 32
    → ip_plus_offset base i ≡ ip_plus_offset base j
    → i ≡ j
unfolding ip_plus_offset dotted
ip_plus_offset-injective base v i j e hi hj h =
    let a : ip_plus_offset base i ≡ dotted ((v + i) % 2 ^ 32) = rw (e, ip_plus_offset) refl in
    let b : ip_plus_offset base j ≡ dotted ((v + j) % 2 ^ 32) = rw (e, ip_plus_offset) refl in
    let k : parse_ipv4 (dotted ((v + i) % 2 ^ 32)) ≡ parse_ipv4 (dotted ((v + j) % 2 ^ 32)) =
      ap parse_ipv4 (sym a ∙ (h ∙ b)) in
    let l = parse_ipv4-dotted ((v + i) % 2 ^ 32) (omega arith) in
    let m = parse_ipv4-dotted ((v + j) % 2 ^ 32) (omega arith) in
    let q : some ((v + i) % 2 ^ 32) ≡ some ((v + j) % 2 ^ 32) = sym l ∙ (k ∙ m) in ground arith
