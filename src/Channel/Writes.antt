-- ===== src/Channel/Writes.antt =====
-- What a write does to a channel.
use rconfig_sim.Base.{
  ltb, length, take, take_all, Bytes, ℕ, zero, suc, ◌-◌, ◌≤◌, ◌<◌, ◌≡◌, refl, ap, ◌∙◌, ◌↔◌, Bool,
  true, false, not, Option, none, some, [], ◌∷◌, ◌++◌, append-nil, arith,
}
use rconfig_sim.Channel.{write, Channel, write_within}

written-write_within :
    (room : Option ℕ) (p : Bytes) (ch : Channel)
    → ((write_within room p ch).0.written ≡ ch.written ++ take (write_within room p ch).1 p)
      × ((write_within room p ch).1 ≤ length p)
      × ((write_within room p ch).0.input ≡ ch.input)
      × (((write_within room p ch).2 ≡ false) ↔ ((write_within room p ch).1 ≡ length p))
unfolding write_within
written-write_within none p ch = ground (arith, take_all (length p) p)
written-write_within (some n) p ch = ground (arith, take_all (length p) p)

-- A write appends the bytes that it reports as taken, a prefix of what it was given, and it reports
-- a failure exactly when that is not all of it.
pub written-write :
    (p : Bytes) (ch : Channel)
    → ((write p ch).0.written ≡ ch.written ++ take (write p ch).1 p)
      × ((write p ch).1 ≤ length p)
      × ((write p ch).0.input ≡ ch.input)
      × (((write p ch).2 ≡ false) ↔ ((write p ch).1 ≡ length p))
unfolding write
written-write p ch = written-write_within ch.room p ch

-- A channel with no end takes every write whole.
pub write_open :
    (p : Bytes) (ch : Channel)
    → ch.room ≡ none
    → write p ch ≡ (record ch { written = ch.written ++ p }, length p, false)
unfolding write write_within
write_open p ch h = rw (h, write_within)

write_within_nil :
    (room : Option ℕ) (ch : Channel) → ch.room ≡ room → (write_within room [] ch).0 ≡ ch
unfolding write_within
write_within_nil none ch h = ap (λ w. record ch { written = w }) (append-nil ch.written)
write_within_nil (some n) ch h = ground (arith, append-nil ch.written)

pub write_nil : (ch : Channel) → (write [] ch).0 ≡ ch
unfolding write
write_nil ch = write_within_nil ch.room ch refl

write_within_nil_count :
    (room : Option ℕ) (ch : Channel)
    → write_within room [] ch ≡ ((write_within room [] ch).0, 0, false)
unfolding write_within
write_within_nil_count none ch = refl
write_within_nil_count (some n) ch = ground arith

-- A write of nothing does nothing, and does not fail.
pub write_nothing : (ch : Channel) → write [] ch ≡ (ch, 0, false)
unfolding write
write_nothing ch =
    write_within_nil_count ch.room ch ∙ ap (λ (k : Channel). (k, 0, false)) (write_nil ch)

-- What a channel with this room takes of some bytes, whether that is all of them, and the room that is
-- left then.
abbrev pub accepted : Option ℕ → Bytes → Bytes
accepted none p = p
accepted (some n) p = take n p

abbrev pub takes_all : Option ℕ → Bytes → Bool
takes_all none p = true
takes_all (some n) p = not (ltb n (length p))

abbrev pub room_after : Option ℕ → Bytes → Option ℕ
room_after none p = none
room_after (some n) p = some (n - length p)

write_within-accepted :
    (room : Option ℕ) (p : Bytes) (ch : Channel)
    → ch.room ≡ room
    → ((write_within room p ch).0.written ≡ ch.written ++ accepted room p)
      × ((write_within room p ch).2 ≡ not (takes_all room p))
      × (takes_all room p ≡ true → (write_within room p ch).0.room ≡ room_after room p)
unfolding write_within
write_within-accepted none p ch h = (refl, refl, λ f. h)
write_within-accepted (some n) p ch h = ground (arith, take_all n p)

pub write-accepted :
    (p : Bytes) (ch : Channel)
    → ((write p ch).0.written ≡ ch.written ++ accepted ch.room p)
      × ((write p ch).2 ≡ not (takes_all ch.room p))
      × (takes_all ch.room p ≡ true → (write p ch).0.room ≡ room_after ch.room p)
unfolding write
write-accepted p ch = write_within-accepted ch.room p ch refl

take-append_long :
    (p q : Bytes) (n : ℕ) → length p ≤ n → take n (p ++ q) ≡ p ++ take (n - length p) q
take-append_long [] q n h = let e : n - 0 ≡ n = omega arith in rw e refl
take-append_long (c ∷ p) q zero h = absurd (omega arith)
take-append_long (c ∷ p) q (suc n) h =
    let e : suc n - suc (length p) ≡ n - length p = omega arith in
    rw e (ap (◌∷◌ c) (take-append_long p q n (omega arith)))

take-append_short : (p q : Bytes) (n : ℕ) → n < length p → take n (p ++ q) ≡ take n p
take-append_short [] q n h = absurd (omega arith)
take-append_short (c ∷ p) q zero h = refl
take-append_short (c ∷ p) q (suc n) h = ap (◌∷◌ c) (take-append_short p q n (omega arith))

-- Two writes in a row are one, up to the first that does not fit.
pub accepted-append :
    (room : Option ℕ) (p q : Bytes)
    → takes_all room p ≡ true
    → accepted room (p ++ q) ≡ p ++ accepted (room_after room p) q
accepted-append none p q h = refl
accepted-append (some n) p q h = take-append_long p q n (ground arith)

pub accepted_whole : (room : Option ℕ) (p : Bytes) → takes_all room p ≡ true → accepted room p ≡ p
accepted_whole none p h = refl
accepted_whole (some n) p h = take_all n p (ground arith)

pub accepted_short :
    (room : Option ℕ) (p q : Bytes)
    → takes_all room p ≡ false
    → accepted room (p ++ q) ≡ accepted room p
accepted_short none p q h = absurd (ground arith)
accepted_short (some n) p q h = take-append_short p q n (ground arith)
