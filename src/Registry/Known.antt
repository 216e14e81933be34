-- ===== src/Registry/Known.antt =====
-- The check of the driver ids at startup.
use rconfig_sim.Base.{
  Bool-cases, Option-cases, Bytes, equal, equal_iff, ◌≡◌, refl, ap, ◌≢◌, ◌↔◌, ◌⊎◌, inl, inr, true,
  false, ◌||◌, none, some, List, [], ◌∷◌, arith, In,
}
use rconfig_sim.Registry.{
  all_drivers, driver_name, registered, driver_for, is_seen, unknown_ids, insert, sort,
  unknown_drivers, Driver,
}

In-insert : (a s : Bytes) (ss : List Bytes) → In a (insert s ss) ↔ ((a ≡ s) ⊎ In a ss)
unfolding insert
In-insert a s [] = ground arith
In-insert a s (t ∷ ts) = ground (arith, In-insert a s ts)

In-sort : (a : Bytes) (ss : List Bytes) → In a (sort ss) ↔ In a ss
unfolding sort
In-sort a [] = ground arith
In-sort a (s ∷ ss) = ground (arith, In-insert a s (sort ss), In-sort a ss)

is_seen_iff : (a : Bytes) (names : List Bytes) → (is_seen a names ≡ true) ↔ In a names
unfolding is_seen
is_seen_iff a [] = ground arith
is_seen_iff a (n ∷ names) = ground (arith, equal_iff n a, is_seen_iff a names)

is_seen_cons :
    (a id : Bytes) (seen : List Bytes) → is_seen a (id ∷ seen) ≡ (equal id a || is_seen a seen)
unfolding is_seen
is_seen_cons a id seen = refl

In-unknown_ids :
    (a : Bytes) (seen ids : List Bytes)
    → In a (unknown_ids seen ids)
      ↔ ((registered a all_drivers ≡ none) × (a ≢ []) × In a ids × (is_seen a seen ≡ false))
unfolding unknown_ids
In-unknown_ids a seen [] = ground arith
In-unknown_ids a seen (id ∷ ids) =
    let same_found = λ (e : a ≡ id). ap (λ (n : Bytes). registered n all_drivers) e in
    let same_seen = λ (e : a ≡ id). ap (λ (n : Bytes). is_seen n seen) e in
    let here = In-unknown_ids a seen ids in
    let later = In-unknown_ids a (id ∷ seen) ids in
    elim (Option-cases (registered id all_drivers)) [
      | inl f ↦
          ground
            (arith, equal_iff id [], equal_iff id a, is_seen_cons a id seen, same_found, same_seen)
      | inr (d, f) ↦
          ground
            (arith, equal_iff id [], equal_iff id a, is_seen_cons a id seen, same_found, same_seen)
    ]

registered_named :
    (name : Bytes) (d : Driver) (ds : List Driver)
    → registered name ds ≡ some d
    → driver_name d ≡ name
unfolding registered
registered_named name d [] h = ground arith
registered_named name d (e ∷ ds) h =
    ground (arith, equal_iff (driver_name e) name, registered_named name d ds)

-- The ids that stop the start are exactly those of some device that are not empty and that no driver
-- is registered for.
pub In-unknown_drivers :
    (a : Bytes) (ids : List Bytes)
    → In a (unknown_drivers ids) ↔ ((registered a all_drivers ≡ none) × (a ≢ []) × In a ids)
unfolding unknown_drivers is_seen
In-unknown_drivers a ids = ground (arith, In-sort a (unknown_ids [] ids), In-unknown_ids a [] ids)

-- After a start that found no unknown id, every device that names a driver is served by the driver of
-- that name, and no other: the fallback serves only devices that name none.
pub driver_for-unknown_drivers :
    (ids : List Bytes) (a : Bytes)
    → unknown_drivers ids ≡ []
    → In a ids
    → (a ≡ []) ⊎ (driver_name (driver_for a) ≡ a)
unfolding driver_for
driver_for-unknown_drivers ids a h m = elim (Option-cases (registered a all_drivers)) [
  | inl f ↦ elim (Bool-cases (equal a [])) [
    | inl t ↦ inl ((equal_iff a []).0 t)
    | inr t ↦
        let other : a ≢ [] = λ e. absurd (ground (arith, equal_iff a [])) in
        let k = (In-unknown_drivers a ids).1 (f, other, m) in absurd (ground arith)
  ]
  | inr (d, f) ↦ inr (rw (f, driver_for) (registered_named a d all_drivers f))
]
