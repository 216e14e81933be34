-- ===== src/Loader/Own.antt =====
-- A listener's own devices, out of the manifest of a run.
use rconfig_sim.Base.Result.{ok}
use native.Mathlib.Nat.{add-mul}
use native.Mathlib.Nat.{div-lt_iff_lt-mul, mod-lt, div-le_self, le-div_iff_mul-le, div-eq_of_lt-le}
use rconfig_sim.Generator.Address.Distinct.{ip_plus_offset-injective}
use rconfig_sim.Base.{
  Bool-cases, length, take, drop, Bytes, equal, equal_iff, ℕ, zero, suc, ◌+◌, ◌-◌, ◌*◌, ◌/◌, ◌%◌,
  ◌^◌, ◌≤◌, ◌<◌, ◌≡◌, refl, sym, ap, ◌∙◌, ◌≢◌, inl, inr, true, none, some, List, [], ◌∷◌, arith,
  ltb_cases,
}
use rconfig_sim.Text.Decimal.Parsing.{atoi-decimal}
use rconfig_sim.Generator.Address.{parse_ipv4, ip_plus_offset}
use rconfig_sim.Loader.{
  same_width, read_all, in_range, device_of, read_row, read_rows, select_devices, Device, Listener,
}
use rconfig_sim.Generator.Manifest.{manifest_row, manifest_rows, manifest, RunConfig, Made}

abbrev pub device_from : (Bytes → Bytes) → RunConfig → ℕ → Made → Device
device_from serial_for cfg i r = record {
  hostname = r.hostname;
  ip = ip_plus_offset cfg.ip_base (i / cfg.devices_per_ip);
  port = cfg.port_start + i % cfg.devices_per_ip;
  vendor = r.model.vendor;
  driver = r.model.template;
  size_bucket = r.model.name;
  config_path = r.path;
  contents = none;
  size = 0;
  serial_number = serial_for r.hostname;
  profile = [];
}

-- The devices of a run, from the i-th on.
abbrev pub devices_from : (Bytes → Bytes) → RunConfig → ℕ → List Made → List Device
devices_from serial_for cfg i [] = []
devices_from serial_for cfg i (r ∷ rs) =
    device_from serial_for cfg i r ∷ devices_from serial_for cfg (i + 1) rs

take-drop-nil {ℓ} : {A : Type ℓ} (n m : ℕ) → take n (drop {A = A} m []) ≡ []
take-drop-nil zero m = refl
take-drop-nil (suc n) zero = refl
take-drop-nil (suc n) (suc m) = refl

same_width-manifest_rows :
    (cfg : RunConfig) (i : ℕ) (rs : List Made) → same_width 10 (manifest_rows cfg i rs) ≡ true
unfolding same_width manifest_rows manifest_row
same_width-manifest_rows cfg i [] = refl
same_width-manifest_rows cfg i (r ∷ rs) = rw (same_width-manifest_rows cfg (i + 1) rs) refl

module _ (serial_for : Bytes → Bytes) (cfg : RunConfig) (l : Listener)
    (pos_per : 0 < cfg.devices_per_ip) where
  read_row-own :
      (i : ℕ) (r : Made)
      → ip_plus_offset cfg.ip_base (i / cfg.devices_per_ip) ≡ l.ip
      → cfg.port_start + i % cfg.devices_per_ip < 2 ^ 63
      → in_range l (cfg.port_start + i % cfg.devices_per_ip) ≡ true
      → read_row serial_for l (manifest_row cfg i r) ≡ ok (some (device_from serial_for cfg i r))
  unfolding read_row manifest_row device_of
  read_row-own i r e p q =
      let a = atoi-decimal (cfg.port_start + i % cfg.devices_per_ip) p in
      let b : equal (ip_plus_offset cfg.ip_base (i / cfg.devices_per_ip)) l.ip ≡ true =
        (equal_iff _ _).1 e in
      rw (b, a, q) refl

  read_row-other :
      (i : ℕ) (r : Made)
      → ip_plus_offset cfg.ip_base (i / cfg.devices_per_ip) ≢ l.ip
      → read_row serial_for l (manifest_row cfg i r) ≡ ok none
  unfolding read_row manifest_row
  read_row-other i r e =
      elim (Bool-cases (equal (ip_plus_offset cfg.ip_base (i / cfg.devices_per_ip)) l.ip)) [
        | inl t ↦ absurd (e ((equal_iff _ _).0 t))
        | inr t ↦ rw t refl
      ]

module _ (serial_for : Bytes → Bytes) (cfg : RunConfig) (l : Listener) (v k : ℕ)
    (pos_per : 0 < cfg.devices_per_ip) (valid : parse_ipv4 cfg.ip_base ≡ some v)
    (small : k < 2 ^ 32) (here : ip_plus_offset cfg.ip_base k ≡ l.ip)
    (start : l.port_start ≡ cfg.port_start) (wide : cfg.devices_per_ip ≤ l.port_count)
    (ports : cfg.port_start + cfg.devices_per_ip ≤ 2 ^ 63) where
  read_row-elsewhere :
      (i : ℕ) (r : Made)
      → i < 2 ^ 32
      → i / cfg.devices_per_ip ≢ k
      → read_row serial_for l (manifest_row cfg i r) ≡ ok none
  read_row-elsewhere i r h n =
      let le = div-le_self i cfg.devices_per_ip in
      read_row-other serial_for cfg l pos_per i r λ e. n (
        ip_plus_offset-injective cfg.ip_base v (i / cfg.devices_per_ip) k valid (omega arith) small
          (e ∙ sym here))

  read_row-here :
      (i : ℕ) (r : Made)
      → i / cfg.devices_per_ip ≡ k
      → read_row serial_for l (manifest_row cfg i r) ≡ ok (some (device_from serial_for cfg i r))
  unfolding in_range
  read_row-here i r e =
      let m = mod-lt i pos_per in
      read_row-own serial_for cfg l pos_per i r (rw e here) (omega arith) (ground arith)

  read_rows-past :
      (i : ℕ) (rs : List Made)
      → (k + 1) * cfg.devices_per_ip ≤ i
      → i + length rs ≤ 2 ^ 32
      → read_rows serial_for l (manifest_rows cfg i rs) ≡ ok []
  unfolding read_rows manifest_rows
  read_rows-past i [] h b = refl
  read_rows-past i (r ∷ rs) h b =
      let p = (le-div_iff_mul-le pos_per).1 h in
      rw (read_row-elsewhere i r (omega arith) (λ e. absurd (omega arith)))
        (read_rows-past (i + 1) rs (omega arith) (omega arith))

  read_rows-within :
      (i : ℕ) (rs : List Made)
      → k * cfg.devices_per_ip ≤ i
      → i + length rs ≤ 2 ^ 32
      → read_rows serial_for l (manifest_rows cfg i rs)
        ≡ ok (take ((k + 1) * cfg.devices_per_ip - i) (devices_from serial_for cfg i rs))
  unfolding read_rows manifest_rows
  read_rows-within i [] h b = elim (ltb_cases i ((k + 1) * cfg.devices_per_ip)) [
    | inl p ↦
        let e : (k + 1) * cfg.devices_per_ip - i ≡ suc ((k + 1) * cfg.devices_per_ip - i - 1) =
          omega arith in
        rw e refl
    | inr p ↦ let e : (k + 1) * cfg.devices_per_ip - i ≡ 0 = omega arith in rw e refl
  ]
  read_rows-within i (r ∷ rs) h b = elim (ltb_cases i ((k + 1) * cfg.devices_per_ip)) [
    | inl p ↦
        let e : (k + 1) * cfg.devices_per_ip - i ≡ suc ((k + 1) * cfg.devices_per_ip - (i + 1)) =
          omega arith in
        rw e (
          rw (read_row-here i r (div-eq_of_lt-le cfg.devices_per_ip h p))
            (rw (read_rows-within (i + 1) rs (omega arith) (omega arith)) refl))
    | inr p ↦
        let e : (k + 1) * cfg.devices_per_ip - i ≡ 0 = omega arith in
        rw e (read_rows-past i (r ∷ rs) p b)
  ]

  read_rows-before :
      (i : ℕ) (rs : List Made)
      → i ≤ k * cfg.devices_per_ip
      → i + length rs ≤ 2 ^ 32
      → read_rows serial_for l (manifest_rows cfg i rs)
        ≡ ok (
            take cfg.devices_per_ip
              (drop (k * cfg.devices_per_ip - i) (devices_from serial_for cfg i rs)))
  unfolding read_rows manifest_rows
  read_rows-before i [] h b =
      ap ok (sym (take-drop-nil cfg.devices_per_ip (k * cfg.devices_per_ip - i)))
  read_rows-before i (r ∷ rs) h b = elim (ltb_cases i (k * cfg.devices_per_ip)) [
    | inl p ↦
        let e : k * cfg.devices_per_ip - i ≡ suc (k * cfg.devices_per_ip - (i + 1)) = omega arith in
        let q = (div-lt_iff_lt-mul pos_per).1 p in
        rw e (
          rw (read_row-elsewhere i r (omega arith) (λ e. absurd (omega arith)))
            (read_rows-before (i + 1) rs (omega arith) (omega arith)))
    | inr p ↦
        let e : k * cfg.devices_per_ip - i ≡ 0 = omega arith in
        let one : (k + 1) * cfg.devices_per_ip ≡ k * cfg.devices_per_ip + 1 * cfg.devices_per_ip =
          add-mul k 1 cfg.devices_per_ip in
        let d : (k + 1) * cfg.devices_per_ip - i ≡ cfg.devices_per_ip = omega arith in
        rw e (
          read_rows-within i (r ∷ rs) (omega arith) b
          ∙ ap (λ (n : ℕ). ok (take n (devices_from serial_for cfg i (r ∷ rs)))) d)
  ]

-- A listener on the address of number k, with the run's first port and at least as many ports as an
-- address has devices, loads from the run's manifest the devices of that address, in their order: the
-- k-th group of `devices_per_ip` devices, and nothing else. The base address is an IPv4 address in
-- dotted form, there are at most 2^32 devices, and the ports are below 2^63.
pub select_devices-manifest :
    (serial_for : Bytes → Bytes) (cfg : RunConfig) (l : Listener) (v k : ℕ) (rs : List Made)
    → 0 < cfg.devices_per_ip
    → parse_ipv4 cfg.ip_base ≡ some v
    → k < 2 ^ 32
    → ip_plus_offset cfg.ip_base k ≡ l.ip
    → l.port_start ≡ cfg.port_start
    → cfg.devices_per_ip ≤ l.port_count
    → cfg.port_start + cfg.devices_per_ip ≤ 2 ^ 63
    → length rs ≤ 2 ^ 32
    → select_devices serial_for l (some (manifest cfg rs))
      ≡ ok (
          take cfg.devices_per_ip
            (drop (k * cfg.devices_per_ip) (devices_from serial_for cfg 0 rs)))
unfolding select_devices manifest read_all
select_devices-manifest serial_for cfg l v k rs pos_per valid small here start wide ports few =
    let q : read_all (manifest cfg rs) ≡ ok (manifest cfg rs) =
      rw (same_width-manifest_rows cfg 0 rs, read_all) refl in
    let z : k * cfg.devices_per_ip - 0 ≡ k * cfg.devices_per_ip = omega arith in
    rw (q, select_devices)
      (read_rows-before serial_for cfg l v k pos_per valid small here start wide ports 0 rs
          (omega arith) (omega arith)
        ∙ ap (λ (n : ℕ). ok (take cfg.devices_per_ip (drop n (devices_from serial_for cfg 0 rs))))
            z)
