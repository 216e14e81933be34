-- ===== src/Loader/Mapping/Leaks.antt =====
-- What a load leaves mapped.
use rconfig_sim.Base.Result.{Result-cases, ok, err}
use rconfig_sim.Text.Decimal.{atoi}
use rconfig_sim.Base.Int.{pos, negsuc}
use rconfig_sim.Base.{
  ltb, Bool-cases, Option-cases, length, get_or, All, All-append, Bytes, equal, ℕ, ◌+◌, ◌-◌, ◌≡◌,
  refl, inl, inr, Option, none, some, List, [], ◌∷◌, ◌++◌, arith,
}
use rconfig_sim.Loader.{
  Loaded, read_all, in_range, prepend, device_of, read_row, read_rows, select_devices, Device,
  Listener,
}
use rconfig_sim.Loader.Mapping.{map_one, holds, unload_all, map_all, load_for_listener}

-- How many of the devices hold a mapping.
abbrev pub held : List Device → ℕ
held [] = 0
held (d ∷ ds) = holds d.contents + held ds

-- Nothing is mapped for the device yet.
abbrev IsFresh : Device → Type 0
IsFresh d = d.contents ≡ none

held-append : (ds es : List Device) → held (ds ++ es) ≡ held ds + held es
held-append [] es = omega arith
held-append (d ∷ ds) es = omega (arith, held-append ds es)

held-IsFresh : (ds : List Device) → All IsFresh ds → held ds ≡ 0
held-IsFresh [] h = refl
held-IsFresh (d ∷ ds) h = rw (h.0, held-IsFresh ds h.1) refl

unload_all-live : (ds : List Device) (live : ℕ) → (unload_all ds live).1 ≡ live - held ds
unfolding unload_all
unload_all-live [] live = omega arith
unload_all-live (d ∷ ds) live = omega (arith, unload_all-live ds (live - holds d.contents))

held-unload_all : (ds : List Device) (live : ℕ) → held (unload_all ds live).0 ≡ 0
unfolding unload_all
held-unload_all [] live = refl
held-unload_all (d ∷ ds) live = omega (arith, held-unload_all ds (live - holds d.contents))

unload_all_twice :
    (ds : List Device) (live n : ℕ)
    → unload_all (unload_all ds live).0 n ≡ ((unload_all ds live).0, n)
unfolding unload_all
unload_all_twice [] live n = refl
unload_all_twice (d ∷ ds) live n =
    let e : n - 0 ≡ n = omega arith in
    rw e (rw (unload_all_twice ds (live - holds d.contents) n) refl)

abbrev bytes_of : Option Bytes → Bytes
bytes_of none = []
bytes_of (some b) = b

-- The device has the whole of its file.
abbrev pub IsMapped : (Bytes → Option Bytes) → Device → Type 0
IsMapped disk d =
    (disk d.config_path ≡ some (bytes_of d.contents)) × (d.size ≡ length (bytes_of d.contents))

map_one-IsMapped_file :
    (disk : Bytes → Option Bytes) (d m : Device) (b : Bytes)
    → disk d.config_path ≡ some b
    → map_one disk d ≡ some m
    → IsMapped disk m
unfolding map_one
map_one-IsMapped_file disk d m [] e h = ground arith
map_one-IsMapped_file disk d m (b ∷ bs) e h = ground arith

map_one-IsMapped :
    (disk : Bytes → Option Bytes) (d m : Device) → map_one disk d ≡ some m → IsMapped disk m
unfolding map_one
map_one-IsMapped disk d m h = elim (Option-cases (disk d.config_path)) [
  | inl e ↦ absurd (ground arith)
  | inr (b, e) ↦ map_one-IsMapped_file disk d m b e h
]

-- Of `before` mappings that were live before a load: after an error as many are live, and otherwise
-- one more for each device that holds one, until `unload_all` takes them away, once.
abbrev pub IsBalanced : (Bytes → Option Bytes) → ℕ → Loaded (List Device) × ℕ → Type 0
IsBalanced disk before (ok ds, live) =
    (live ≡ before + held ds)
    × All (IsMapped disk) ds
    × ((unload_all ds live).1 ≡ before)
    × (unload_all (unload_all ds live).0 before ≡ ((unload_all ds live).0, before))
IsBalanced disk before (err e, live) = live ≡ before

map_all-IsBalanced :
    (disk : Bytes → Option Bytes) (before : ℕ) (done ds : List Device) (live : ℕ)
    → live ≡ before + held done
    → All IsFresh ds
    → All (IsMapped disk) done
    → IsBalanced disk before (map_all disk done ds live)
unfolding map_all
map_all-IsBalanced disk before done [] live h f m =
    let a = unload_all-live done live in (h, m, omega arith, unload_all_twice done live before)
map_all-IsBalanced disk before done (d ∷ ds) live h f m = elim (Option-cases (map_one disk d)) [
  | inl e ↦
      let a = unload_all-live (done ++ (d ∷ ds)) live in
      let b = held-append done (d ∷ ds) in
      let c = held-IsFresh (d ∷ ds) f in rw (e, map_all) (omega arith)
  | inr (x, e) ↦
      let b = held-append done (x ∷ []) in
      rw (e, map_all)
        (map_all-IsBalanced disk before (done ++ (x ∷ [])) ds (live + holds x.contents)
          (omega arith) f.1
          (All-append (IsMapped disk) done (x ∷ []) m (map_one-IsMapped disk d x e, tt)))
]

abbrev AllFresh : Loaded (List Device) → Type 0
AllFresh (ok ds) = All IsFresh ds
AllFresh (err e) = Unit

abbrev IsOneFresh : Loaded (Option Device) → Type 0
IsOneFresh (ok (some d)) = IsFresh d
IsOneFresh _ = Unit

prepend-AllFresh :
    (a : Loaded (Option Device)) (b : Loaded (List Device))
    → IsOneFresh a
    → AllFresh b
    → AllFresh (prepend a b)
prepend-AllFresh (err e) b p q = tt
prepend-AllFresh (ok none) b p q = q
prepend-AllFresh (ok (some d)) (ok ds) p q = (p, q)
prepend-AllFresh (ok (some d)) (err e) p q = tt

read_row-IsOneFresh :
    (serial_for : Bytes → Bytes) (l : Listener) (row : List Bytes)
    → IsOneFresh (read_row serial_for l row)
unfolding read_row device_of
read_row-IsOneFresh serial_for l row = elim (Bool-cases (ltb (length row) 10)) [
  | inl t ↦ rw (t, read_row) tt
  | inr t ↦ elim (Bool-cases (equal (get_or row 1 []) l.ip)) [
    | inr u ↦ rw (t, u, read_row) tt
    | inl u ↦ elim (Option-cases (atoi (get_or row 2 []))) [
      | inl a ↦ rw (t, u, a, read_row) tt
      | inr (negsuc p, a) ↦ rw (t, u, a, read_row) tt
      | inr (pos p, a) ↦ elim (Bool-cases (in_range l p)) [
        | inl r ↦ rw (t, u, a, r, read_row) refl
        | inr r ↦ rw (t, u, a, r, read_row) tt
      ]
    ]
  ]
]

read_rows-AllFresh :
    (serial_for : Bytes → Bytes) (l : Listener) (rows : List (List Bytes))
    → AllFresh (read_rows serial_for l rows)
unfolding read_rows
read_rows-AllFresh serial_for l [] = tt
read_rows-AllFresh serial_for l (row ∷ rows) =
    prepend-AllFresh (read_row serial_for l row) (read_rows serial_for l rows)
      (read_row-IsOneFresh serial_for l row) (read_rows-AllFresh serial_for l rows)

select_devices-AllFresh :
    (serial_for : Bytes → Bytes) (l : Listener) (manifest : Option (List (List Bytes)))
    → AllFresh (select_devices serial_for l manifest)
unfolding select_devices
select_devices-AllFresh serial_for l none = tt
select_devices-AllFresh serial_for l (some rows) = elim (Result-cases (read_all rows)) [
  | inr (e, q) ↦ rw (q, select_devices) tt
  | inl ([], q) ↦ rw (q, select_devices) tt
  | inl (header ∷ body, q) ↦ rw (q, select_devices) (read_rows-AllFresh serial_for l body)
]

-- A load is balanced, whatever the manifest and the disk: an error leaves no mapping behind; success
-- gives every device the whole of its file, with as many mappings as there are devices that hold one,
-- and `UnloadAll` takes exactly these away and changes nothing when it is called again.
pub load_for_listener-IsBalanced :
    (serial_for : Bytes → Bytes) (disk : Bytes → Option Bytes) (l : Listener)
    (manifest : Option (List (List Bytes))) (before : ℕ)
    → IsBalanced disk before (load_for_listener serial_for disk l manifest before)
unfolding load_for_listener
load_for_listener-IsBalanced serial_for disk l manifest before =
    elim (Result-cases (select_devices serial_for l manifest)) [
      | inr (e, q) ↦ rw (q, load_for_listener) refl
      | inl (ds, q) ↦
          let g = select_devices-AllFresh serial_for l manifest in
          let f = rw q at g in
          rw (q, load_for_listener) (map_all-IsBalanced disk before [] ds before (omega arith) f tt)
    ]
