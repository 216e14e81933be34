-- ===== src/Generator/Draws.antt =====
-- Loops that draw, as the builders of internal/configs have them.
use rconfig_sim.Base.{
  ◌==◌, if◌then◌else◌, length, All, ℕ, zero, suc, ◌+◌, ◌≡◌, refl, ap, Bool, false, List, [], ◌∷◌,
}
use rconfig_sim.Generator.Random.{Draw, ◌>>=◌, give}
use rconfig_sim.Fault.{intn, Rng}

-- `rng.Intn(n) == 0`.
unfoldable pub chance : ℕ → Draw Bool
chance n = do k ← intn n; give (k == 0)

-- `b && rng.Intn(n) == 0`: nothing is drawn where b is false.
unfoldable pub chance_if : Bool → ℕ → Draw Bool
unfolding chance
chance_if b n = if b then chance n else give false

-- `for i := ...`: `left` rounds from i on.
unfoldable pub draw_each : {A : Type 0} → (ℕ → Draw A) → ℕ → ℕ → Draw (List A)
draw_each f i zero = give []
draw_each f i (suc left) = do a ← f i; rest ← draw_each f (i + 1) left; give (a ∷ rest)

-- `max(n, 1)`.
abbrev pub one_at_least : ℕ → ℕ
one_at_least n = if n == 0 then 1 else n

pub length-draw_each :
    {A : Type 0} (f : ℕ → Draw A) (i left : ℕ) (r : Rng) → length (draw_each f i left r).0 ≡ left
unfolding draw_each
length-draw_each f i zero r = refl
length-draw_each f i (suc left) r = ap suc (length-draw_each f (i + 1) left (f i r).1)

-- What every round draws, the list has throughout.
pub All-draw_each :
    {A : Type 0} (P : A → Type 0) (f : ℕ → Draw A)
    → ((i : ℕ) (r : Rng) → P (f i r).0)
    → (i left : ℕ) (r : Rng) → All P (draw_each f i left r).0
unfolding draw_each
All-draw_each P f h i zero r = tt
All-draw_each P f h i (suc left) r = (h i r, All-draw_each P f h (i + 1) left (f i r).1)
