-- ===== src/Server/Listeners/Closed.antt =====
-- A start that fails leaves nothing open.
use mathlib.Core.Path.{subst}
use rconfig_sim.Base.{
  ◌==◌, if◌then◌else◌, ℕ, ◌≡◌, refl, sym, ap, ◌∙◌, ◌⊎◌, inl, inr, Bool, true, false, Option, none,
  some, List, [], ◌∷◌, arith, In, if-both,
}
use rconfig_sim.Server.Listeners.{
  remove_port, close_ports, close_listeners, bind_ports, start, no_sockets, Sockets,
}

-- Every port that is open is one of the listeners, in their order.
close_ports_self : (ps : List ℕ) → close_ports ps ps ≡ []
unfolding close_ports remove_port
close_ports_self [] = refl
close_ports_self (p ∷ ps) = let e : (p == p) ≡ true = ground arith in rw e (close_ports_self ps)

closed : (s : Sockets) → s.open_ports ≡ s.listeners → (close_listeners s).open_ports ≡ []
unfolding close_listeners
closed s h = ap (close_ports s.listeners) h ∙ close_ports_self s.listeners

-- What the loop over the ports ends with.
abbrev Bound : List ℕ → Sockets → Bool × Sockets → Type 0
Bound ps s (true, t) =
    (t.open_ports ≡ t.listeners)
    × ((q : ℕ) → In q ps ⊎ In q s.listeners → In q t.listeners)
    × (t.metrics_open ≡ s.metrics_open)
Bound ps s (false, t) = (t.open_ports ≡ []) × (t.metrics_open ≡ s.metrics_open)

Bound-cons :
    (p : ℕ) (ps : List ℕ) (s t : Sockets) (r : Bool × Sockets)
    → t.listeners ≡ p ∷ s.listeners
    → t.metrics_open ≡ s.metrics_open
    → Bound ps t r
    → Bound (p ∷ ps) s r
Bound-cons p ps s t (false, u) e m b = (b.0, b.1 ∙ m)
Bound-cons p ps s t (true, u) e m b = (
  b.0,
  λ q. λ w.
      let here : (q ≡ p) ⊎ In q s.listeners → In q t.listeners = λ v. subst (In q) (sym e) v in
      b.1 q (elim w [
        | inl (inl z) ↦ inr (here (inl z))
        | inl (inr z) ↦ inl z
        | inr z ↦ inr (here (inr z))
      ]),
  b.2 ∙ m,
)

bind_ports-Bound :
    (can_listen : ℕ → Bool) (ps : List ℕ) (s : Sockets)
    → s.open_ports ≡ s.listeners
    → Bound ps s (bind_ports can_listen ps s)
unfolding bind_ports
bind_ports-Bound can_listen [] s h =
    (h, (λ q. λ w. elim w [ inl z ↦ elim z [ ] | inr z ↦ z ]), refl)
bind_ports-Bound can_listen (p ∷ ps) s h =
    let t = record s { open_ports = p ∷ s.open_ports; listeners = p ∷ s.listeners } in
    if-both (Bound (p ∷ ps) s) (can_listen p)
      (Bound-cons p ps s t (bind_ports can_listen ps t) refl refl
        (bind_ports-Bound can_listen ps t (ap (◌∷◌ p) h)))
      (closed s h, unfold close_listeners in refl)

-- A start that succeeds has every port open, and the metrics address if there is one.
abbrev pub Opened : Option Bool → List ℕ → Bool × Sockets → Type 0
Opened metrics ports (true, t) =
    ((q : ℕ) → In q ports → In q t.open_ports)
    × (t.metrics_open ≡ (elim metrics as (λ o. Bool) [ none ↦ false | some b ↦ true ]))
Opened metrics ports (false, t) = (t.open_ports ≡ []) × (t.metrics_open ≡ false)

start_metrics :
    (metrics : Option Bool) (ports : List ℕ) (r : Bool × Sockets)
    → Bound ports no_sockets r
    → Opened metrics ports (
        let served : Bool × Sockets = elim metrics [
          | none ↦ (true, r.1)
          | some true ↦ (true, record r.1 { metrics_open = true })
          | some false ↦ (false, close_listeners r.1)
        ] in
        if r.0 then served else (false, r.1))
start_metrics metrics ports (false, t) b = b
start_metrics none ports (true, t) b = ((λ q. λ m. subst (In q) (sym b.0) (b.1 q (inl m))), b.2)
start_metrics (some true) ports (true, t) b =
    ((λ q. λ m. subst (In q) (sym b.0) (b.1 q (inl m))), refl)
start_metrics (some false) ports (true, t) b = (closed t b.0, unfold close_listeners in b.2)

-- Whatever addresses can be listened on: a start that fails leaves no port open and no metrics
-- address; one that succeeds has a listener on every device's port, and the metrics address if one is
-- configured.
pub start-Opened :
    (can_listen : ℕ → Bool) (metrics : Option Bool) (ports : List ℕ)
    → Opened metrics ports (start can_listen metrics ports no_sockets)
unfolding start
start-Opened can_listen metrics ports =
    start_metrics metrics ports (bind_ports can_listen ports no_sockets)
      (bind_ports-Bound can_listen ports no_sockets refl)
