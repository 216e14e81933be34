-- ===== src/Drivers/Ciena.antt =====
-- internal/sshsrv/driver_ciena.go.
use rconfig_sim.Base.{
  if◌then◌else◌, Bytes, codes, equal, ℕ, ◌+◌, ◌*◌, ◌%◌, ◌||◌, none, some, List, [], ◌∷◌, ◌++◌,
}
use rconfig_sim.Command.{
  Command, tl1_unknown, tl1_deny, tl1_act_user, tl1_rtrv_eqpt, tl1_rtrv_alm_all, tl1_rtrv_cond_all,
  tl1_rtrv_active_user, tl1_rtrv_sw_ver, tl1_rtrv_sys, tl1_rtrv_ne_list,
}
use rconfig_sim.Text.{to_upper}
use rconfig_sim.Text.Decimal.{decimal}
use rconfig_sim.Tl1.Grammar.{tid_is_local, Parsed}
use rconfig_sim.Tl1.Block.{concat, compld, deny}
use rconfig_sim.Tl1.Sections.{find_section}
use rconfig_sim.Response.{text_response}
use rconfig_sim.Drivers.Node.{
  alm_payload, cond_payload, Answer, gate, eqpt_response, Credentials, Session,
}

abbrev pub ciena_rne_marker : Bytes
ciena_rne_marker = codes ";;RNE "

abbrev pub ciena_prompt : Bytes
ciena_prompt = codes "\r\n< "

-- `Commands`.
abbrev pub ciena_commands : List Command
ciena_commands =
    tl1_unknown ∷ tl1_deny ∷ tl1_act_user ∷ tl1_rtrv_eqpt ∷ tl1_rtrv_alm_all ∷ tl1_rtrv_cond_all
    ∷ tl1_rtrv_active_user ∷ tl1_rtrv_sw_ver ∷ tl1_rtrv_sys ∷ tl1_rtrv_ne_list ∷ []

unfoldable pub eqpt_payload : Bytes → Bytes
eqpt_payload serial = concat (
    codes "   \"SHELF-1::PROVISIONED,SN="
    ∷ serial
    ∷ codes ",TYPE=6500-7SLOT:IS-NR\"\r\n"
    ∷ codes "   \"SLOT-1:OTR2,"
    ∷ serial
    ∷ codes "-01:IS-NR\"\r\n"
    ∷ codes "   \"SLOT-2:WL3N,"
    ∷ serial
    ∷ codes "-02:IS-NR\"\r\n"
    ∷ codes "   \"SLOT-7:EDFA,"
    ∷ serial
    ∷ codes "-07:IS-NR\"\r\n"
    ∷ [])

-- `rneAddr`.
unfoldable pub rne_addr : ℕ → Bytes
rne_addr i = codes "172.28.3." ++ decimal (26 + i)

-- One record of RTRV-NE-LIST.
unfoldable pub ne_record : ℕ → Bytes → Bytes
ne_record i tid = concat (
    codes "   \"SHELF-1::SID=\\\""
    ∷ tid
    ∷ codes "\\\",NENAME=\\\""
    ∷ tid
    ∷ codes "\\\",GNE=NO,GNEIPADDR=,INETADDR="
    ∷ rne_addr i
    ∷ codes ",COST="
    ∷ decimal (30 + (i * 10) % 180)
    ∷ codes ",NETYPE=00011600\"\r\n"
    ∷ [])

ne_records : ℕ → List Bytes → Bytes
ne_records i [] = []
ne_records i (tid ∷ tids) = ne_record i tid ++ ne_records (i + 1) tids

-- `neListPayload`.
unfoldable pub ne_list_payload : Session → Bytes
unfolding ne_records ne_record rne_addr
ne_list_payload s = ne_records 0 s.order

-- `activeUserPayload`.
unfoldable pub active_user_payload : Bytes → Bytes
active_user_payload user = concat (
    codes "   \""
    ∷ to_upper (if equal user [] then codes "ADMIN" else user)
    ∷ codes ":ADMIN,ACTIVE\"\r\n"
    ∷ [])

abbrev pub sw_ver_payload : Bytes
sw_ver_payload = codes "   \"SWVER=12.4,LOAD=12.4-GA,STATUS=ACTIVE\"\r\n"

unfoldable pub sys_payload : Bytes → Bytes → Bytes
sys_payload sid serial =
    concat
      (codes "   \"SID=" ∷ sid ∷ codes ",TYPE=6500-7SLOT,SHELFSN=" ∷ serial ∷ codes "\"\r\n" ∷ [])

-- `switch verb`, for the node `resp_sid` with inventory `eqpt`.
unfoldable pub ciena_verb : Credentials → Bytes → Parsed → Session → Bytes → Bytes → Answer
ciena_verb c stamp p s resp_sid eqpt =
    let done = λ (payload : Bytes). text_response (compld stamp resp_sid p.ctag payload) in
    if equal p.verb (codes "RTRV-EQPT")
    then (tl1_rtrv_eqpt, eqpt_response stamp resp_sid p.ctag eqpt (eqpt_payload s.serial))
    else if equal p.verb (codes "RTRV-ALM-ALL")
    then (tl1_rtrv_alm_all, done alm_payload)
    else if equal p.verb (codes "RTRV-COND-ALL")
    then (tl1_rtrv_cond_all, done cond_payload)
    else if equal p.verb (codes "RTRV-ACTIVE-USER")
    then (tl1_rtrv_active_user, done (active_user_payload c.username))
    else if equal p.verb (codes "RTRV-SW-VER")
    then (tl1_rtrv_sw_ver, done sw_ver_payload)
    else if equal p.verb (codes "RTRV-SYS")
    then (tl1_rtrv_sys, done (sys_payload resp_sid s.serial))
    else (tl1_unknown, text_response (deny stamp resp_sid p.ctag (codes "ICNV")))

-- Past the login gate: the neighbour list is local; any other verb goes to the node it addresses.
unfoldable pub ciena_serve : Credentials → Bytes → Parsed → Session → Answer
ciena_serve c stamp p s =
    if equal p.verb (codes "RTRV-NE-LIST") || equal p.verb (codes "RTRV-NODES")
    then (tl1_rtrv_ne_list, text_response (compld stamp s.sid p.ctag (ne_list_payload s)))
    else if tid_is_local p.tid s.sid
    then ciena_verb c stamp p s s.sid s.local_eqpt
    else elim (find_section (to_upper p.tid) s.remote_eqpt) [
      | none ↦ (tl1_deny, text_response (deny stamp s.sid p.ctag (codes "IIAC")))
      | some body ↦ ciena_verb c stamp p s (to_upper p.tid) body
    ]

-- `dispatchCiena`.
unfoldable pub dispatch_ciena : Credentials → Bytes → Bytes → Session → Answer × Session
unfolding ciena_serve gate
dispatch_ciena c stamp = gate c stamp (ciena_serve c stamp)
