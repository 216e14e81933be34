-- ===== src/Session/Delay/Bounds.antt =====
-- How long a command is delayed.
use rconfig_sim.Session.{count_fault, draw, roll_fault, Profile, Config, World}
use rconfig_sim.Fault.{intn_lt, slow_response}
use native.Mathlib.Nat.{mul-le-mul}
use Prim.Native.Nat.{max}
use rconfig_sim.Base.{
  ltb, if◌then◌else◌, Bool-cases, ℕ, ◌+◌, ◌-◌, ◌≤◌, ◌≡◌, refl, ap, ◌∙◌, ◌⊎◌, inl, inr, Option, ◌∷◌,
  arith,
}
use rconfig_sim.Session.Delay.{
  hang, hang_once, delay_bounds, base_delay, slow_down, sleep, apply_response_delay,
}

base_delay_bounds :
    (lo hi : ℕ) (w : World)
    → (lo ≤ (base_delay (lo, hi) w).0) × ((base_delay (lo, hi) w).0 ≤ max lo hi)
unfolding base_delay draw
base_delay_bounds lo hi w = let h = intn_lt (hi - lo + 1) w.rng (omega arith) in ground arith

slow_down_bounds :
    (delay : ℕ) (w : World) → (100 ≤ (slow_down delay w).0) × ((slow_down delay w).0 ≤ 60000)
unfolding slow_down
slow_down_bounds delay w =
    let a : 10 ≤ max delay 10 = omega arith in
    let b : 10 ≤ 10 + (draw 41 w).0 = omega arith in let c = mul-le-mul a b in omega arith

-- The delay, and what is injected for it.
abbrev pub Delayed : ℕ × ℕ → ℕ → World → World → Type 0
Delayed (lo, hi) ms w v =
    (lo ≤ ms) × (ms ≤ max lo hi) × (v.faults_injected ≡ w.faults_injected)
    ⊎ (100 ≤ ms) × (ms ≤ 60000) × (v.faults_injected ≡ slow_response ∷ w.faults_injected)

sleep-Delayed :
    (b : ℕ × ℕ) (ms : ℕ) (w u : World)
    → u.sleeps ≡ w.sleeps
    → Delayed b ms w u
    → ((sleep (ms, u)).sleeps ≡ (if ltb 0 ms then ms ∷ w.sleeps else w.sleeps))
      × Delayed b ms w (sleep (ms, u))
unfolding sleep
sleep-Delayed b ms w u e h = elim (Bool-cases (ltb 0 ms)) [
  | inl t ↦ rw (t, e) (refl, h)
  | inr t ↦ rw (t, e) (refl, h)
]

hang_once-keeps :
    (c : Config) (p : Option Profile) (w : World)
    → ((hang_once c p w).sleeps ≡ w.sleeps)
      × ((hang_once c p w).faults_injected ≡ w.faults_injected)
unfolding hang_once hang
hang_once-keeps c p w = ground arith

base_delay-keeps :
    (b : ℕ × ℕ) (w : World)
    → ((base_delay b w).1.sleeps ≡ w.sleeps)
      × ((base_delay b w).1.faults_injected ≡ w.faults_injected)
unfolding base_delay draw
base_delay-keeps b w = ground arith

slow_down-keeps :
    (delay : ℕ) (w : World)
    → ((slow_down delay w).1.sleeps ≡ w.sleeps)
      × ((slow_down delay w).1.faults_injected ≡ slow_response ∷ w.faults_injected)
unfolding slow_down draw count_fault
slow_down-keeps delay w = (refl, refl)

-- Before every command the session sleeps at most once: for a time within the bounds of the device,
-- or, when slow_response is injected and counted, for 100 ms to a minute.
pub apply_response_delay-Delayed :
    (c : Config) (w : World)
    → (ms : ℕ) × ((apply_response_delay c w).sleeps
        ≡ (if ltb 0 ms then ms ∷ w.sleeps else w.sleeps))
      × Delayed (delay_bounds c c.profile) ms w (apply_response_delay c w)
unfolding apply_response_delay roll_fault
apply_response_delay-Delayed c w =
    let b = delay_bounds c c.profile in
    let v = hang_once c c.profile w in
    let (vs, vf) = hang_once-keeps c c.profile w in
    let d = base_delay b v in
    let (ds, df) = base_delay-keeps b v in
    let (dl, dh) = base_delay_bounds b.0 b.1 v in
    let u = (roll_fault c slow_response d.1).1 in
    let (us, uf) = slow_down-keeps d.0 u in
    let (ul, uh) = slow_down_bounds d.0 u in
    elim (Bool-cases (roll_fault c slow_response d.1).0) [
      | inl t ↦
          let k =
            sleep-Delayed b (slow_down d.0 u).0 w (slow_down d.0 u).1 (us ∙ (ds ∙ vs))
              (inr (ul, uh, uf ∙ ap (◌∷◌ slow_response) (df ∙ vf))) in
          ((slow_down d.0 u).0, rw t k.0, rw t k.1)
      | inr t ↦
          let k = sleep-Delayed b d.0 w u (ds ∙ vs) (inl (dl, dh, df ∙ vf)) in
          (d.0, rw t k.0, rw t k.1)
    ]
