-- ===== src/Drivers/CiscoOns.antt =====
-- internal/sshsrv/driver_cisco_tl1.go.
use rconfig_sim.Base.{
  ◌==◌, if◌then◌else◌, Bytes, codes, equal, ℕ, ◌+◌, ◌%◌, none, some, List, [], ◌∷◌, ◌++◌,
}
use rconfig_sim.Command.{
  Command, tl1_unknown, tl1_deny, tl1_act_user, tl1_rtrv_eqpt, tl1_rtrv_alm_all, tl1_rtrv_cond_all,
  tl1_rtrv_sw_ver, tl1_rtrv_map_network,
}
use rconfig_sim.Text.{to_upper}
use rconfig_sim.Text.Decimal.{decimal_difference}
use rconfig_sim.Tl1.Grammar.{tid_is_local, Parsed}
use rconfig_sim.Tl1.Block.{concat, compld, deny}
use rconfig_sim.Tl1.Sections.{find_section}
use rconfig_sim.Response.{text_response}
use rconfig_sim.Drivers.Node.{
  alm_payload, cond_payload, Answer, gate, eqpt_response, Credentials, Session,
}

abbrev pub cisco_ene_marker : Bytes
cisco_ene_marker = codes ";;ENE "

abbrev pub cisco_ons_prompt : Bytes
cisco_ons_prompt = codes "\r\n< "

-- `Commands`.
abbrev pub cisco_ons_commands : List Command
cisco_ons_commands =
    tl1_unknown ∷ tl1_deny ∷ tl1_act_user ∷ tl1_rtrv_eqpt ∷ tl1_rtrv_alm_all ∷ tl1_rtrv_cond_all
    ∷ tl1_rtrv_sw_ver ∷ tl1_rtrv_map_network ∷ []

-- `ciscoONSAddr`.
unfoldable pub cisco_ons_addr : ℕ → Bytes
cisco_ons_addr i = codes "172.20.222." ++ decimal_difference 225 i

-- A record of RTRV-MAP-NETWORK.
unfoldable pub map_record : Bytes → Bytes → Bytes → Bytes
map_record addr name product =
    concat (codes "   \"" ∷ addr ∷ codes "," ∷ name ∷ codes "," ∷ product ∷ codes "\"\r\n" ∷ [])

map_records : ℕ → List Bytes → Bytes
map_records i [] = []
map_records i (tid ∷ tids) =
    map_record (cisco_ons_addr (i + 1)) tid (if i % 7 == 6 then codes "UNKNOWN" else codes "15454")
    ++ map_records (i + 1) tids

-- `mapNetworkPayload`.
unfoldable pub map_network_payload : Session → Bytes
unfolding map_records map_record cisco_ons_addr
map_network_payload s = map_record (cisco_ons_addr 0) s.sid (codes "15454") ++ map_records 0 s.order

unfoldable pub cisco_ons_eqpt_payload : Bytes → Bytes
cisco_ons_eqpt_payload serial = concat (
    codes "   \"SLOT-1::PROVISIONED,TYPE=15454-TCC2P,SN="
    ∷ serial
    ∷ codes ",STATE=IS-NR\"\r\n"
    ∷ [])

abbrev pub cisco_ons_sw_ver_payload : Bytes
cisco_ons_sw_ver_payload = codes "   \"SWVER=09.10-005E-16.28,LOADSTATE=ACTIVE\"\r\n"

unfoldable pub cisco_ons_verb : Bytes → Parsed → Session → Bytes → Bytes → Answer
cisco_ons_verb stamp p s resp_sid eqpt =
    let done = λ (payload : Bytes). text_response (compld stamp resp_sid p.ctag payload) in
    if equal p.verb (codes "RTRV-EQPT")
    then (tl1_rtrv_eqpt, eqpt_response stamp resp_sid p.ctag eqpt (cisco_ons_eqpt_payload s.serial))
    else if equal p.verb (codes "RTRV-ALM-ALL")
    then (tl1_rtrv_alm_all, done alm_payload)
    else if equal p.verb (codes "RTRV-COND-ALL")
    then (tl1_rtrv_cond_all, done cond_payload)
    else if equal p.verb (codes "RTRV-SW-VER")
    then (tl1_rtrv_sw_ver, done cisco_ons_sw_ver_payload)
    else (tl1_deny, text_response (deny stamp s.sid p.ctag (codes "ICNV")))

unfoldable pub cisco_ons_serve : Bytes → Parsed → Session → Answer
cisco_ons_serve stamp p s =
    if equal p.verb (codes "RTRV-MAP-NETWORK")
    then (tl1_rtrv_map_network, text_response (compld stamp s.sid p.ctag (map_network_payload s)))
    else if tid_is_local p.tid s.sid
    then cisco_ons_verb stamp p s s.sid s.local_eqpt
    else elim (find_section (to_upper p.tid) s.remote_eqpt) [
      | none ↦ (tl1_deny, text_response (deny stamp s.sid p.ctag (codes "IIAC")))
      | some body ↦ cisco_ons_verb stamp p s (to_upper p.tid) body
    ]

-- `dispatchCiscoONS`.
unfoldable pub dispatch_cisco_ons : Credentials → Bytes → Bytes → Session → Answer × Session
unfolding cisco_ons_serve gate
dispatch_cisco_ons c stamp = gate c stamp (cisco_ons_serve stamp)
