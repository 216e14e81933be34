-- ===== src/Drivers/Routing.antt =====
-- RTRV-EQPT through a gateway: which inventory answers, and under which name.
use rconfig_sim.Drivers.Infinera.{
  infinera_eqpt_payload, infinera_verb, infinera_serve, dispatch_infinera,
}
use rconfig_sim.Drivers.Ciena.{eqpt_payload, ciena_verb, ciena_serve, dispatch_ciena}
use rconfig_sim.Drivers.CiscoOns.{
  cisco_ons_eqpt_payload, cisco_ons_verb, cisco_ons_serve, dispatch_cisco_ons,
}
use rconfig_sim.Base.{
  if◌then◌else◌, Bool-cases, Option-cases, Bytes, codes, equal, ℕ, ◌≡◌, refl, ap, ◌∙◌, ◌≢◌, ◌⊎◌,
  inl, inr, true, false, Option, some, [], ◌∷◌, arith,
}
use mathlib.Core.Option
use rconfig_sim.Command.{tl1_rtrv_eqpt}
use rconfig_sim.Text.{to_upper}
use rconfig_sim.Response.{no_response, Response}
use rconfig_sim.Tl1.Grammar.{parse_tl1, tid_is_local, Parsed}
use rconfig_sim.Tl1.Block.{compld_header, terminator}
use rconfig_sim.Tl1.Sections.{find_section}
use rconfig_sim.Drivers.Node.{Answer, gate, eqpt_response, Credentials, Session}
use rconfig_sim.Drivers.Vendor.{dispatch_tl1, Vendor, ciena_tl1, infinera_tl1, cisco_ons_tl1}

abbrev pub rtrv_eqpt : Bytes
rtrv_eqpt = codes "RTRV-EQPT"

-- The name that the header of a relayed answer carries: an Infinera node answers under its own.
abbrev pub relay_sid : Vendor → Session → Bytes → Bytes
relay_sid ciena_tl1 s tid = to_upper tid
relay_sid infinera_tl1 s tid = s.sid
relay_sid cisco_ons_tl1 s tid = to_upper tid

abbrev pub streamed : Bytes → Bytes → Bytes → Bytes → Response
streamed stamp sid ctag eqpt = record no_response {
  output = compld_header stamp sid ctag;
  config_output = eqpt;
  trailer = terminator;
}

gate_open :
    (c : Credentials) (stamp : Bytes) (serve : Parsed → Session → Answer) (raw : Bytes)
    (s : Session)
    → s.logged_in ≡ true
    → (parse_tl1 raw).verb ≡ rtrv_eqpt
    → gate c stamp serve raw s ≡ (serve (parse_tl1 raw) s, s)
unfolding gate equal
gate_open c stamp serve raw s l e = rw (e, l)

-- The node that a TID addresses, by the name it answers under and its inventory: the attached node
-- itself, or one behind it; `none` if there is no such node.
abbrev pub addressed : Vendor → Session → Bytes → Option (Bytes × Bytes)
addressed v s tid =
    if tid_is_local tid s.sid
    then some (s.sid, s.local_eqpt)
    else Option.map (λ (body : Bytes). (relay_sid v s tid, body))
        (find_section (to_upper tid) s.remote_eqpt)

addressed_cases :
    (v : Vendor) (s : Session) (tid sid eqpt : Bytes)
    → addressed v s tid ≡ some (sid, eqpt)
    → (tid_is_local tid s.sid ≡ true) × (sid ≡ s.sid) × (eqpt ≡ s.local_eqpt)
      ⊎ (tid_is_local tid s.sid ≡ false)
        × (find_section (to_upper tid) s.remote_eqpt ≡ some eqpt)
        × (sid ≡ relay_sid v s tid)
addressed_cases v s tid sid eqpt a = elim (Bool-cases (tid_is_local tid s.sid)) [
  | inl l ↦ elim (Option-cases (find_section (to_upper tid) s.remote_eqpt)) [
    | inl f ↦ ground arith
    | inr (body, f) ↦ ground arith
  ]
  | inr l ↦ elim (Option-cases (find_section (to_upper tid) s.remote_eqpt)) [
    | inl f ↦ ground arith
    | inr (body, f) ↦ ground arith
  ]
]

eqpt_response-streamed :
    (stamp sid ctag eqpt canned : Bytes)
    → eqpt ≢ []
    → eqpt_response stamp sid ctag eqpt canned ≡ streamed stamp sid ctag eqpt
unfolding eqpt_response
eqpt_response-streamed stamp sid ctag [] canned h = absurd (h refl)
eqpt_response-streamed stamp sid ctag (c ∷ eqpt) canned h = ground arith

module _ (c : Credentials) (stamp : ℕ → Bytes) (p : Parsed) (s : Session)
    (e : p.verb ≡ rtrv_eqpt) where
  ciena_verb_eqpt :
      (sid eqpt : Bytes)
      → eqpt ≢ []
      → ciena_verb c (stamp 0) p s sid eqpt ≡ (tl1_rtrv_eqpt, streamed (stamp 0) sid p.ctag eqpt)
  unfolding ciena_verb equal
  ciena_verb_eqpt sid eqpt h =
      rw (e, eqpt_response-streamed (stamp 0) sid p.ctag eqpt (eqpt_payload s.serial) h)

  infinera_verb_eqpt :
      (eqpt : Bytes)
      → eqpt ≢ []
      → infinera_verb (stamp 0) p s eqpt ≡ (tl1_rtrv_eqpt, streamed (stamp 0) s.sid p.ctag eqpt)
  unfolding infinera_verb equal
  infinera_verb_eqpt eqpt h =
      rw (e, eqpt_response-streamed (stamp 0) s.sid p.ctag eqpt (infinera_eqpt_payload s.serial) h)

  cisco_ons_verb_eqpt :
      (sid eqpt : Bytes)
      → eqpt ≢ []
      → cisco_ons_verb (stamp 0) p s sid eqpt ≡ (tl1_rtrv_eqpt, streamed (stamp 0) sid p.ctag eqpt)
  unfolding cisco_ons_verb equal
  cisco_ons_verb_eqpt sid eqpt h =
      rw (e, eqpt_response-streamed (stamp 0) sid p.ctag eqpt (cisco_ons_eqpt_payload s.serial) h)

  abbrev serve_node : Vendor → Answer
  serve_node ciena_tl1 = ciena_serve c (stamp 0) p s
  serve_node infinera_tl1 = infinera_serve stamp p s
  serve_node cisco_ons_tl1 = cisco_ons_serve (stamp 0) p s

  not_verb : (w : Bytes) → equal rtrv_eqpt w ≡ false → equal p.verb w ≡ false
  unfolding equal
  not_verb w h = rw (e, h)

  serve_eqpt :
      (v : Vendor) (sid eqpt : Bytes)
      → addressed v s p.tid ≡ some (sid, eqpt)
      → eqpt ≢ []
      → serve_node v ≡ (tl1_rtrv_eqpt, streamed (stamp 0) sid p.ctag eqpt)
  unfolding ciena_serve infinera_serve cisco_ons_serve equal
  serve_eqpt ciena_tl1 sid eqpt a h =
      let t = not_verb (codes "RTRV-NE-LIST") refl in
      let u = not_verb (codes "RTRV-NODES") refl in
      elim (addressed_cases ciena_tl1 s p.tid sid eqpt a) [
        | inl (l, i, q) ↦ ground (arith, ciena_verb_eqpt sid eqpt h)
        | inr (l, f, i) ↦ ground (arith, ciena_verb_eqpt sid eqpt h)
      ]
  serve_eqpt infinera_tl1 sid eqpt a h =
      let t = not_verb (codes "RTRV-TIDMAP") refl in
      elim (addressed_cases infinera_tl1 s p.tid sid eqpt a) [
        | inl (l, i, q) ↦ ground (arith, infinera_verb_eqpt eqpt h)
        | inr (l, f, i) ↦ ground (arith, infinera_verb_eqpt eqpt h)
      ]
  serve_eqpt cisco_ons_tl1 sid eqpt a h =
      let t = not_verb (codes "RTRV-MAP-NETWORK") refl in
      elim (addressed_cases cisco_ons_tl1 s p.tid sid eqpt a) [
        | inl (l, i, q) ↦ ground (arith, cisco_ons_verb_eqpt sid eqpt h)
        | inr (l, f, i) ↦ ground (arith, cisco_ons_verb_eqpt sid eqpt h)
      ]

-- On a session that is logged in, RTRV-EQPT to a node that is the gateway itself or known behind it
-- and has an inventory answers with exactly that node's inventory, between a header and the
-- terminator, and changes nothing.
pub dispatch_tl1-addressed :
    (v : Vendor) (c : Credentials) (stamp : ℕ → Bytes) (raw : Bytes) (s : Session)
    (sid eqpt : Bytes)
    → s.logged_in ≡ true
    → (parse_tl1 raw).verb ≡ rtrv_eqpt
    → addressed v s (parse_tl1 raw).tid ≡ some (sid, eqpt)
    → eqpt ≢ []
    → dispatch_tl1 v c stamp raw s
      ≡ ((tl1_rtrv_eqpt, streamed (stamp 0) sid (parse_tl1 raw).ctag eqpt), s)
unfolding dispatch_tl1 dispatch_ciena dispatch_infinera dispatch_cisco_ons
dispatch_tl1-addressed ciena_tl1 c stamp raw s sid eqpt l e a h =
    gate_open c (stamp 0) (ciena_serve c (stamp 0)) raw s l e
    ∙ ap (λ (x : Answer). (x, s)) (serve_eqpt c stamp (parse_tl1 raw) s e ciena_tl1 sid eqpt a h)
dispatch_tl1-addressed infinera_tl1 c stamp raw s sid eqpt l e a h =
    gate_open c (stamp 0) (infinera_serve stamp) raw s l e
    ∙ ap (λ (x : Answer). (x, s)) (serve_eqpt c stamp (parse_tl1 raw) s e infinera_tl1 sid eqpt a h)
dispatch_tl1-addressed cisco_ons_tl1 c stamp raw s sid eqpt l e a h =
    gate_open c (stamp 0) (cisco_ons_serve (stamp 0)) raw s l e
    ∙ ap (λ (x : Answer). (x, s))
        (serve_eqpt c stamp (parse_tl1 raw) s e cisco_ons_tl1 sid eqpt a h)
