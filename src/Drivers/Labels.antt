-- ===== src/Drivers/Labels.antt =====
-- The labels of the answers of the TL1 drivers, and those that the drivers announce.
use rconfig_sim.Drivers.Infinera.{
  infinera_commands, infinera_verb, infinera_serve, dispatch_infinera,
}
use rconfig_sim.Drivers.Vendor.{
  dispatch_tl1, vendor_commands, Vendor, ciena_tl1, infinera_tl1, cisco_ons_tl1,
}
use rconfig_sim.Drivers.CiscoOns.{
  cisco_ons_commands, cisco_ons_verb, cisco_ons_serve, dispatch_cisco_ons,
}
use rconfig_sim.Base.{Option-cases, Bytes, ℕ, refl, inl, inr, List, arith, In}
use rconfig_sim.Tl1.Grammar.{parse_tl1, Parsed}
use rconfig_sim.Tl1.Sections.{find_section}
use rconfig_sim.Text.{to_upper}
use rconfig_sim.Command.{Command, tl1_unknown, tl1_deny, tl1_act_user}
use rconfig_sim.Drivers.Node.{Answer, gate, Credentials, Session}
use rconfig_sim.Drivers.Ciena.{ciena_commands, ciena_verb, ciena_serve, dispatch_ciena}

gate-label :
    (cmds : List Command) (c : Credentials) (stamp : Bytes) (serve : Parsed → Session → Answer)
    (raw : Bytes) (s : Session)
    → In tl1_unknown cmds
    → In tl1_deny cmds
    → In tl1_act_user cmds
    → ((p : Parsed) (s : Session) → In (serve p s).0 cmds)
    → In (gate c stamp serve raw s).0.0 cmds
unfolding gate
gate-label cmds c stamp serve raw s u d a later = ground (arith, later (parse_tl1 raw) s)

ciena_verb-label :
    (c : Credentials) (stamp : Bytes) (p : Parsed) (s : Session) (resp_sid eqpt : Bytes)
    → In (ciena_verb c stamp p s resp_sid eqpt).0 ciena_commands
unfolding ciena_verb
ciena_verb-label c stamp p s resp_sid eqpt = ground arith

infinera_verb-label :
    (stamp : Bytes) (p : Parsed) (s : Session) (eqpt : Bytes)
    → In (infinera_verb stamp p s eqpt).0 infinera_commands
unfolding infinera_verb
infinera_verb-label stamp p s eqpt = ground arith

cisco_ons_verb-label :
    (stamp : Bytes) (p : Parsed) (s : Session) (resp_sid eqpt : Bytes)
    → In (cisco_ons_verb stamp p s resp_sid eqpt).0 cisco_ons_commands
unfolding cisco_ons_verb
cisco_ons_verb-label stamp p s resp_sid eqpt = ground arith

ciena_serve-label :
    (c : Credentials) (stamp : Bytes) (p : Parsed) (s : Session)
    → In (ciena_serve c stamp p s).0 ciena_commands
unfolding ciena_serve
ciena_serve-label c stamp p s = elim (Option-cases (find_section (to_upper p.tid) s.remote_eqpt)) [
  | inl e ↦ ground (arith, ciena_verb-label c stamp p s s.sid s.local_eqpt)
  | inr (body, e) ↦ ground (
    arith,
    ciena_verb-label c stamp p s s.sid s.local_eqpt,
    ciena_verb-label c stamp p s (to_upper p.tid) body,
  )
]

infinera_serve-label :
    (stamp : ℕ → Bytes) (p : Parsed) (s : Session)
    → In (infinera_serve stamp p s).0 infinera_commands
unfolding infinera_serve
infinera_serve-label stamp p s = elim (Option-cases (find_section (to_upper p.tid) s.remote_eqpt)) [
  | inl e ↦ ground (arith, infinera_verb-label (stamp 0) p s s.local_eqpt)
  | inr (body, e) ↦ ground (
    arith,
    infinera_verb-label (stamp 0) p s s.local_eqpt,
    infinera_verb-label (stamp 0) p s body,
  )
]

cisco_ons_serve-label :
    (stamp : Bytes) (p : Parsed) (s : Session) → In (cisco_ons_serve stamp p s).0 cisco_ons_commands
unfolding cisco_ons_serve
cisco_ons_serve-label stamp p s =
    elim (Option-cases (find_section (to_upper p.tid) s.remote_eqpt)) [
      | inl e ↦ ground (arith, cisco_ons_verb-label stamp p s s.sid s.local_eqpt)
      | inr (body, e) ↦ ground (
        arith,
        cisco_ons_verb-label stamp p s s.sid s.local_eqpt,
        cisco_ons_verb-label stamp p s (to_upper p.tid) body,
      )
    ]

-- Every command label that a TL1 driver answers under is in the list that it announces, so the
-- series that the server registers at the start are all that the driver can add to.
pub dispatch_tl1-label :
    (v : Vendor) (c : Credentials) (stamp : ℕ → Bytes) (raw : Bytes) (s : Session)
    → In (dispatch_tl1 v c stamp raw s).0.0 (vendor_commands v)
unfolding dispatch_tl1 vendor_commands dispatch_ciena dispatch_infinera dispatch_cisco_ons
dispatch_tl1-label ciena_tl1 c stamp raw s =
    gate-label ciena_commands c (stamp 0) (ciena_serve c (stamp 0)) raw s (inl refl)
      (inr (inl refl)) (inr (inr (inl refl))) (ciena_serve-label c (stamp 0))
dispatch_tl1-label infinera_tl1 c stamp raw s =
    gate-label infinera_commands c (stamp 0) (infinera_serve stamp) raw s (inl refl)
      (inr (inl refl)) (inr (inr (inl refl))) (infinera_serve-label stamp)
dispatch_tl1-label cisco_ons_tl1 c stamp raw s =
    gate-label cisco_ons_commands c (stamp 0) (cisco_ons_serve (stamp 0)) raw s (inl refl)
      (inr (inl refl)) (inr (inr (inl refl))) (cisco_ons_serve-label (stamp 0))
