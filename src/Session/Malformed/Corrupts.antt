-- ===== src/Session/Malformed/Corrupts.antt =====
-- What the malformed fault makes of a stream.
use rconfig_sim.Session.Emit.Plain.{write_all_open}
use rconfig_sim.Base.{
  leb, ◌==◌, Bool-cases, length, get_or, take, drop, length-append, length-take, length-drop, Bytes,
  ℕ, zero, suc, ◌+◌, ◌-◌, ◌*◌, ◌/◌, ◌≤◌, ◌<◌, ◌≡◌, refl, ap, ◌∙◌, ◌≢◌, inl, inr, false, none, [],
  ◌∷◌, ◌++◌, append-nil, arith,
}
use native.Mathlib.Nat.{mul-le-mul_left}
use Prim.Native.Nat.{max}
use rconfig_sim.Session.{draw, World}
use rconfig_sim.Session.Malformed.{
  malformed_marker, truncated, injected, flip, flipped, corrupted, write_malformed,
}
use rconfig_sim.Tl1.Block.{concat}
use rconfig_sim.Fault.{intn, intn_lt}

-- The streams that a client may get instead of this one.
pub data Corrupted (body : Bytes) : Bytes → Type 0 where
  shortened : (n : ℕ) → length body * 90 / 100 ≤ n → n < length body → Corrupted body (take n body)
  marked :
      (n : ℕ) → n ≤ length body → Corrupted body (take n body ++ (malformed_marker ++ drop n body))
  altered :
      (n b : ℕ)
      → length body / 4 ≤ n
      → n < 3 * length body / 4
      → body ≡ take n body ++ (b ∷ drop (n + 1) body)
      → Corrupted body (take n body ++ (flip b ∷ drop (n + 1) body))

take-get_or-drop :
    (n d : ℕ) (xs : Bytes) → n < length xs → xs ≡ take n xs ++ (get_or xs n d ∷ drop (n + 1) xs)
take-get_or-drop n d [] h = absurd (omega arith)
take-get_or-drop zero d (x ∷ xs) h = refl
take-get_or-drop (suc n) d (x ∷ xs) h =
    let e : suc n + 1 ≡ suc (n + 1) = omega arith in
    rw e (ap (◌∷◌ x) (take-get_or-drop n d xs (omega arith)))

truncated-Corrupted :
    (body : Bytes) (w : World) → 2 ≤ length body → Corrupted body (concat (truncated body w).0)
unfolding truncated draw
truncated-Corrupted body w h =
    let k = (intn 10 w.rng).0 in
    let t : k < 10 = intn_lt 10 w.rng (omega arith) in
    let low : 90 ≤ 90 + k = omega arith in
    let high : 90 + k ≤ 99 = omega arith in
    let a = mul-le-mul_left (length body) low in
    let b = mul-le-mul_left (length body) high in
    let n = max (length body * (90 + k) / 100) 1 in
    rw (append-nil (take n body)) (shortened n (omega arith) (omega arith))

injected-Corrupted : (body : Bytes) → Corrupted body (concat (injected body))
unfolding injected
injected-Corrupted body =
    rw (append-nil (drop (length body / 2) body)) (marked (length body / 2) (omega arith))

flipped-Corrupted :
    (body : Bytes) (w : World) → 2 ≤ length body → Corrupted body (concat (flipped body w).0)
unfolding flipped draw
flipped-Corrupted body w h =
    let lo = length body / 4 in
    let hi = 3 * length body / 4 in
    let k = (intn (hi - lo) w.rng).0 in
    let t : k < hi - lo = intn_lt (hi - lo) w.rng (omega arith) in
    let off = lo + k in
    let u : leb hi lo ≡ false = ground arith in
    let e = take-get_or-drop off 0 body (omega arith) in
    rw (u, append-nil (drop (off + 1) body))
      (altered off (get_or body off 0) (omega arith) (omega arith) e)

corrupted-Corrupted :
    (mode : ℕ) (body : Bytes) (w : World)
    → 2 ≤ length body
    → Corrupted body (concat (corrupted mode body w).0)
unfolding corrupted
corrupted-Corrupted mode body w h = elim (Bool-cases (mode == 0)) [
  | inl t ↦ rw t (truncated-Corrupted body w h)
  | inr t ↦ elim (Bool-cases (mode == 1)) [
    | inl u ↦ rw (t, u) (injected-Corrupted body)
    | inr u ↦ rw (t, u) (flipped-Corrupted body w h)
  ]
]

corrupted_room :
    (mode : ℕ) (body : Bytes) (w : World) → ((corrupted mode body w).1.channel ≡ w.channel)
unfolding corrupted truncated flipped draw
corrupted_room mode body w = ground arith

append-cancel : (xs : Bytes) {ys zs : Bytes} → xs ++ ys ≡ xs ++ zs → ys ≡ zs
append-cancel [] e = e
append-cancel (x ∷ xs) {ys} {zs} e =
    let t : xs ++ ys ≡ xs ++ zs = ground arith in append-cancel xs t

flip_other : (b : ℕ) → flip b ≢ b
unfolding flip
flip_other b e = omega arith

Corrupted-differs : (body out : Bytes) → Corrupted body out → out ≢ body
Corrupted-differs body out (shortened n l h) e =
    let t = ap length e in omega (arith, length-take n body)
Corrupted-differs body out (marked n h) e =
    let t = ap length e in
    omega (
      arith,
      length-take n body,
      length-drop n body,
      length-append (take n body) (malformed_marker ++ drop n body),
      length-append malformed_marker (drop n body),
    )
Corrupted-differs body out (altered n b l h t) e =
    let u = append-cancel (take n body) (e ∙ t) in flip_other b (ground arith)

-- A stream of two bytes or more that is picked to be malformed reaches a client that keeps reading
-- truncated, with the marker inserted, or with one byte of its middle half inverted, and never as it
-- is.
pub write_malformed-Corrupted :
    (body : Bytes) (w : World)
    → 2 ≤ length body
    → w.channel.room ≡ none
    → (out : Bytes) × Corrupted body out
      × (out ≢ body)
      × ((write_malformed body w).0 ≡ false)
      × ((write_malformed body w).1.channel.written ≡ w.channel.written ++ out)
unfolding write_malformed draw
write_malformed-Corrupted [] w l h = absurd (omega arith)
write_malformed-Corrupted (b ∷ body) w l h =
    let v = (draw 3 w).1 in
    let mode = (draw 3 w).0 in
    let u = corrupted mode (b ∷ body) v in
    let r = corrupted_room mode (b ∷ body) v in
    let x = write_all_open u.0 u.1 (rw r h) in
    let k = corrupted-Corrupted mode (b ∷ body) v l in
    (concat u.0, k, Corrupted-differs (b ∷ body) (concat u.0) k, rw x refl, rw (x, r) refl)
