-- ===== src/Loader/Mapping/Fields.antt =====
-- What a load says of every device that it gives.
use rconfig_sim.Base.{
  ltb, Bool-cases, Option-cases, length, get_or, All, All-append, Bytes, equal, equal_iff, ℕ, ◌+◌,
  ◌≡◌, inl, inr, true, Option, none, some, List, [], ◌∷◌, ◌++◌, arith, if-both,
}
use rconfig_sim.Base.Int.{pos, negsuc}
use rconfig_sim.Base.Result.{Result-cases, ok, err}
use rconfig_sim.Loader.{
  Loaded, read_all, in_range, prepend, device_of, read_row, read_rows, select_devices, Device,
  Listener,
}
use rconfig_sim.Loader.Mapping.{map_one, holds, map_all, load_for_listener}
use rconfig_sim.Text.Decimal.{atoi}

-- The device is one of the listener's.
abbrev pub IsOwn : Listener → Device → Type 0
IsOwn l d = (d.ip ≡ l.ip) × (in_range l d.port ≡ true)

abbrev pub AllOwn : Listener → Loaded (List Device) → Type 0
AllOwn l (ok ds) = All (IsOwn l) ds
AllOwn l (err e) = Unit

abbrev IsOneOwn : Listener → Loaded (Option Device) → Type 0
IsOneOwn l (ok (some d)) = IsOwn l d
IsOneOwn l _ = Unit

prepend-AllOwn :
    (l : Listener) (a : Loaded (Option Device)) (b : Loaded (List Device))
    → IsOneOwn l a
    → AllOwn l b
    → AllOwn l (prepend a b)
prepend-AllOwn l (err e) b p q = tt
prepend-AllOwn l (ok none) b p q = q
prepend-AllOwn l (ok (some d)) (ok ds) p q = (p, q)
prepend-AllOwn l (ok (some d)) (err e) p q = tt

module _ (serial : Bytes → Bytes) (l : Listener) where
  read_row-IsOneOwn : (row : List Bytes) → IsOneOwn l (read_row serial l row)
  unfolding read_row device_of
  read_row-IsOneOwn row =
      let P = IsOneOwn l in
      if-both P (ltb (length row) 10) tt (elim (Bool-cases (equal (get_or row 1 []) l.ip)) [
        | inr u ↦ rw u tt
        | inl u ↦
            let e = (equal_iff (get_or row 1 []) l.ip).0 u in
            elim (Option-cases (atoi (get_or row 2 []))) [
              | inl a ↦ rw (u, a) tt
              | inr (negsuc p, a) ↦ rw (u, a) tt
              | inr (pos p, a) ↦ elim (Bool-cases (in_range l p)) [
                | inl r ↦ rw (u, a, r) (e, r)
                | inr r ↦ rw (u, a, r) tt
              ]
            ]
      ])

  read_rows-AllOwn : (rows : List (List Bytes)) → AllOwn l (read_rows serial l rows)
  unfolding read_rows
  read_rows-AllOwn [] = tt
  read_rows-AllOwn (row ∷ rows) =
      prepend-AllOwn l (read_row serial l row) (read_rows serial l rows) (read_row-IsOneOwn row)
        (read_rows-AllOwn rows)

  select_devices-AllOwn :
      (manifest : Option (List (List Bytes))) → AllOwn l (select_devices serial l manifest)
  unfolding select_devices
  select_devices-AllOwn none = tt
  select_devices-AllOwn (some rows) = elim (Result-cases (read_all rows)) [
    | inr (e, q) ↦ rw (q, select_devices) tt
    | inl ([], q) ↦ rw (q, select_devices) tt
    | inl (header ∷ body, q) ↦ rw (q, select_devices) (read_rows-AllOwn body)
  ]

  map_one-IsOwn :
      (disk : Bytes → Option Bytes) (d m : Device) → map_one disk d ≡ some m → IsOwn l d → IsOwn l m
  unfolding map_one
  map_one-IsOwn disk d m h own = elim (Option-cases (disk d.config_path)) [
    | inl e ↦ absurd (ground arith)
    | inr (b, e) ↦ file b e
  ]
    where
      file : (b : Bytes) → disk d.config_path ≡ some b → IsOwn l m
      file [] e = ground arith
      file (c ∷ b) e = ground arith

  map_all-AllOwn :
      (disk : Bytes → Option Bytes) (done ds : List Device) (live : ℕ)
      → All (IsOwn l) done
      → All (IsOwn l) ds
      → AllOwn l (map_all disk done ds live).0
  unfolding map_all
  map_all-AllOwn disk done [] live p q = p
  map_all-AllOwn disk done (d ∷ ds) live p q = elim (Option-cases (map_one disk d)) [
    | inl e ↦ rw (e, map_all) tt
    | inr (x, e) ↦
        rw (e, map_all)
          (map_all-AllOwn disk (done ++ (x ∷ [])) ds (live + holds x.contents)
            (All-append (IsOwn l) done (x ∷ []) p (map_one-IsOwn disk d x e q.0, tt)) q.1)
  ]

  -- Every device that is loaded has the listener's address and a port in its range.
  pub load_for_listener-AllOwn :
      (disk : Bytes → Option Bytes) (manifest : Option (List (List Bytes))) (live : ℕ)
      → AllOwn l (load_for_listener serial disk l manifest live).0
  unfolding load_for_listener
  load_for_listener-AllOwn disk manifest live =
      elim (Result-cases (select_devices serial l manifest)) [
        | inr (e, q) ↦ rw (q, load_for_listener) tt
        | inl (ds, q) ↦
            let g = select_devices-AllOwn manifest in
            let f = rw q at g in rw (q, load_for_listener) (map_all-AllOwn disk [] ds live tt f)
      ]
