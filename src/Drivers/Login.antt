-- ===== src/Drivers/Login.antt =====
-- The in-band login of the TL1 drivers.
use rconfig_sim.Drivers.Infinera.{infinera_serve, dispatch_infinera}
use rconfig_sim.Drivers.Ciena.{ciena_serve, dispatch_ciena}
use rconfig_sim.Drivers.CiscoOns.{cisco_ons_serve, dispatch_cisco_ons}
use rconfig_sim.Drivers.Vendor.{
  dispatch_tl1, run_commands, Vendor, ciena_tl1, infinera_tl1, cisco_ons_tl1,
}
use rconfig_sim.Base.{
  if◌then◌else◌, Bytes, codes, equal, equal_iff, ℕ, ◌≡◌, refl, Bool, false, ◌&&◌, ◌||◌, List, [],
  ◌∷◌, map, arith,
}
use rconfig_sim.Command.{tl1_unknown, tl1_deny}
use rconfig_sim.Tl1.Grammar.{parse_tl1, parse_act_user, Parsed}
use rconfig_sim.Tl1.Block.{deny}
use rconfig_sim.Response.{no_response, text_response}
use rconfig_sim.Drivers.Node.{valid_tl1_login, Answer, act_user_verb, gate, Credentials, Session}

-- The command is an ACT-USER with accepted credentials.
abbrev pub logs_in : Credentials → Bytes → Bool
logs_in c raw =
    equal (parse_tl1 raw).verb act_user_verb
    && valid_tl1_login c (parse_act_user raw).0 (parse_act_user raw).1

-- What a command gets that does not log in, on a session that is not logged in. It does not depend on
-- the node but for its name.
abbrev pub refusal : Bytes → Bytes → Bytes → Answer
refusal stamp sid raw =
    if equal (parse_tl1 raw).verb []
    then (tl1_unknown, no_response)
    else (tl1_deny, text_response (deny stamp sid (parse_tl1 raw).ctag (codes "PLNA")))

module _ (c : Credentials) (stamp : Bytes) (serve : Parsed → Session → Answer) (raw : Bytes)
    (s : Session) where
  gate-session :
      (gate c stamp serve raw s).1 ≡ record s { logged_in = s.logged_in || logs_in c raw }
  unfolding gate
  gate-session =
      ground
        (arith, equal_iff (parse_tl1 raw).verb [], equal_iff (parse_tl1 raw).verb act_user_verb)

  gate_refused :
      s.logged_in ≡ false
      → logs_in c raw ≡ false
      → gate c stamp serve raw s ≡ (refusal stamp s.sid raw, s)
  unfolding gate
  gate_refused l e =
      ground
        (arith, equal_iff (parse_tl1 raw).verb [], equal_iff (parse_tl1 raw).verb act_user_verb)

module _ (c : Credentials) (stamp : ℕ → Bytes) where
  dispatch_tl1-refusal :
      (v : Vendor) (raw : Bytes) (s : Session)
      → s.logged_in ≡ false
      → logs_in c raw ≡ false
      → dispatch_tl1 v c stamp raw s ≡ (refusal (stamp 0) s.sid raw, s)
  unfolding dispatch_tl1 dispatch_ciena dispatch_infinera dispatch_cisco_ons
  dispatch_tl1-refusal ciena_tl1 raw s = gate_refused c (stamp 0) (ciena_serve c (stamp 0)) raw s
  dispatch_tl1-refusal infinera_tl1 raw s = gate_refused c (stamp 0) (infinera_serve stamp) raw s
  dispatch_tl1-refusal cisco_ons_tl1 raw s =
      gate_refused c (stamp 0) (cisco_ons_serve (stamp 0)) raw s

  -- A command changes nothing of the session but the login, and that only by an ACT-USER with
  -- accepted credentials.
  pub dispatch_tl1-session :
      (v : Vendor) (raw : Bytes) (s : Session)
      → (dispatch_tl1 v c stamp raw s).1 ≡ record s { logged_in = s.logged_in || logs_in c raw }
  unfolding dispatch_tl1 dispatch_ciena dispatch_infinera dispatch_cisco_ons
  dispatch_tl1-session ciena_tl1 raw s = gate-session c (stamp 0) (ciena_serve c (stamp 0)) raw s
  dispatch_tl1-session infinera_tl1 raw s = gate-session c (stamp 0) (infinera_serve stamp) raw s
  dispatch_tl1-session cisco_ons_tl1 raw s =
      gate-session c (stamp 0) (cisco_ons_serve (stamp 0)) raw s

  abbrev pub any_logs_in : List Bytes → Bool
  any_logs_in [] = false
  any_logs_in (raw ∷ raws) = logs_in c raw || any_logs_in raws

  -- Over a whole run of commands, the session is logged in at the end exactly if it was at the
  -- beginning or one of the commands was an ACT-USER with accepted credentials.
  pub run_commands-session :
      (v : Vendor) (raws : List Bytes) (s : Session)
      → (run_commands v c stamp raws s).1 ≡ record s { logged_in = s.logged_in || any_logs_in raws }
  unfolding run_commands
  run_commands-session v [] s = ground arith
  run_commands-session v (raw ∷ raws) s = ground (
    arith,
    dispatch_tl1-session v raw s,
    run_commands-session v raws (dispatch_tl1 v c stamp raw s).1,
  )

  -- As long as no ACT-USER with accepted credentials comes, a run of commands on a session that is not
  -- logged in gets, whatever the vendor and whatever the node holds, nothing for an empty command and
  -- the PLNA denial for every other, a failed ACT-USER included, and the session stays as it is.
  pub run_commands-refusal :
      (v : Vendor) (raws : List Bytes) (s : Session)
      → s.logged_in ≡ false
      → any_logs_in raws ≡ false
      → run_commands v c stamp raws s ≡ (map (refusal (stamp 0) s.sid) raws, s)
  unfolding run_commands
  run_commands-refusal v [] s l e = refl
  run_commands-refusal v (raw ∷ raws) s l e =
      let d = dispatch_tl1-refusal v raw s l (ground arith) in
      let k = run_commands-refusal v raws s l (ground arith) in rw (d, k) refl
