-- ===== src/Server/Cap.antt =====
-- The cap on concurrent sessions, and the count of finished ones.
use rconfig_sim.Server.{
  set_result, remove_at, replace_at, release, turn_away, on_arrive, on_shake, on_leave, on_report,
  handle, run_events, Conn, Server, Event, arrive, shake, report, leave,
}
use rconfig_sim.Base.{
  if◌then◌else◌, Option-cases, length, get_elem?, ℕ, zero, suc, ◌+◌, ◌≤◌, ◌≡◌, inl, inr, true, some,
  List, [], ◌∷◌, arith,
}

abbrev pub serving_count : List Conn → ℕ
serving_count [] = 0
serving_count (c ∷ cs) = (if c.serving then 1 else 0) + serving_count cs

abbrev pub arrivals : List Event → ℕ
arrivals [] = 0
arrivals (arrive p ∷ es) = 1 + arrivals es
arrivals (e ∷ es) = arrivals es

-- The counters agree with the connections there are, of which there are not more than the cap.
abbrev pub IsWithinCap : Server → Type 0
IsWithinCap s =
    (s.held ≡ length s.conns) × (s.held ≤ s.cap) × (s.active_sessions ≡ serving_count s.conns)

remove_at_count :
    (n : ℕ) (c : Conn) (cs : List Conn)
    → get_elem? cs n ≡ some c
    → (length (remove_at n cs) + 1 ≡ length cs)
      × ((if c.serving then 1 else 0) + serving_count (remove_at n cs) ≡ serving_count cs)
remove_at_count n c [] h = absurd (ground arith)
remove_at_count zero c (d ∷ cs) h = ground arith
remove_at_count (suc n) c (d ∷ cs) h = ground (arith, remove_at_count n c cs h)

replace_at_count :
    (n : ℕ) (c d : Conn) (cs : List Conn)
    → get_elem? cs n ≡ some c
    → (length (replace_at n d cs) ≡ length cs)
      × ((if c.serving then 1 else 0) + serving_count (replace_at n d cs)
          ≡ (if d.serving then 1 else 0) + serving_count cs)
replace_at_count n c d [] h = absurd (ground arith)
replace_at_count zero c d (e ∷ cs) h = ground arith
replace_at_count (suc n) c d (e ∷ cs) h = ground (arith, replace_at_count n c d cs h)

-- An event keeps the counters right, and every client that has come is either connected or counted.
handle-IsWithinCap :
    (e : Event) (s : Server)
    → IsWithinCap s
    → IsWithinCap (handle e s)
      × (length (handle e s).sessions_total + length (handle e s).conns
          ≡ arrivals (e ∷ []) + (length s.sessions_total + length s.conns))
unfolding handle on_arrive turn_away on_shake on_leave on_report release
handle-IsWithinCap (arrive p) s h = ground arith
handle-IsWithinCap (shake n x) s h = elim (Option-cases (get_elem? s.conns n)) [
  | inl e ↦ ground arith
  | inr (c, e) ↦ ground (
    arith,
    remove_at_count n c s.conns e,
    replace_at_count n c (record c { serving = true }) s.conns e,
  )
]
handle-IsWithinCap (report n r) s h = elim (Option-cases (get_elem? s.conns n)) [
  | inl e ↦ ground arith
  | inr (c, e) ↦
      ground (arith, replace_at_count n c (record c { result = set_result r c.result }) s.conns e)
]
handle-IsWithinCap (leave n) s h = elim (Option-cases (get_elem? s.conns n)) [
  | inl e ↦ ground arith
  | inr (c, e) ↦ ground (arith, remove_at_count n c s.conns e)
]

arrivals_cons : (e : Event) (es : List Event) → arrivals (e ∷ es) ≡ arrivals (e ∷ []) + arrivals es
arrivals_cons (arrive p) es = omega arith
arrivals_cons (shake n x) es = omega arith
arrivals_cons (report n r) es = omega arith
arrivals_cons (leave n) es = omega arith

-- Whatever clients connect, and however handshakes and sessions go, the connections that hold a place
-- are never more than the cap, the gauge of active sessions is the number of them past the handshake,
-- and every client that has come is either connected or counted once under a result.
pub run_events-IsWithinCap :
    (es : List Event) (s : Server)
    → IsWithinCap s
    → IsWithinCap (run_events es s)
      × (length (run_events es s).sessions_total + length (run_events es s).conns
          ≡ arrivals es + (length s.sessions_total + length s.conns))
unfolding run_events
run_events-IsWithinCap [] s h = (h, omega arith)
run_events-IsWithinCap (e ∷ es) s h =
    let (k, a) = handle-IsWithinCap e s h in
    let (m, b) = run_events-IsWithinCap es (handle e s) k in (m, omega (arith, arrivals_cons e es))
