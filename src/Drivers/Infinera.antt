-- ===== src/Drivers/Infinera.antt =====
-- internal/sshsrv/driver_infinera.go.
pub mod Paging
use rconfig_sim.Base.{
  ltb, ◌==◌, if◌then◌else◌, length, take, drop, Bytes, codes, equal, ℕ, zero, suc, ◌+◌, ◌-◌, ◌*◌,
  ◌%◌, ◌^◌, none, some, List, [], ◌∷◌, ◌++◌,
}
use Prim.Native.Nat.{min}
use rconfig_sim.Command.{
  Command, tl1_unknown, tl1_deny, tl1_act_user, tl1_rtrv_eqpt, tl1_rtrv_alm_all, tl1_rtrv_cond_all,
  tl1_rtrv_sw_ver, tl1_rtrv_sys, tl1_rtrv_tidmap,
}
use rconfig_sim.Text.{to_upper}
use rconfig_sim.Text.Decimal.{decimal, decimal_padded}
use rconfig_sim.Tl1.Grammar.{tid_is_local, Parsed}
use rconfig_sim.Tl1.Block.{concat, block, compld, deny}
use rconfig_sim.Tl1.Sections.{find_section}
use rconfig_sim.Response.{text_response}
use rconfig_sim.Drivers.Node.{
  alm_payload, cond_payload, Answer, gate, eqpt_response, Credentials, Session,
}

abbrev pub infinera_rne_marker : Bytes
infinera_rne_marker = codes ";;NODE "

abbrev pub infinera_tidmap_page_size : ℕ
infinera_tidmap_page_size = 10

abbrev pub infinera_prompt : Bytes
infinera_prompt = codes "\r\n> "

-- `Commands`.
abbrev pub infinera_commands : List Command
infinera_commands =
    tl1_unknown ∷ tl1_deny ∷ tl1_act_user ∷ tl1_rtrv_eqpt ∷ tl1_rtrv_alm_all ∷ tl1_rtrv_cond_all
    ∷ tl1_rtrv_sw_ver ∷ tl1_rtrv_sys ∷ tl1_rtrv_tidmap ∷ []

-- `sum = sum*31 + int(r)` in 64 bits, as the bit pattern.
hash_tid : ℕ → Bytes → ℕ
hash_tid sum [] = sum
hash_tid sum (r ∷ tid) = hash_tid ((sum * 31 + r) % 2 ^ 64) tid

-- From 2^63 on the pattern stands for a negative number; 2^63 itself stays negative when negated.
node_id_number : ℕ → Bytes
node_id_number sum =
    if ltb sum (2 ^ 63)
    then decimal_padded 10 (sum % 10000000000)
    else if ltb (2 ^ 63) sum
    then decimal_padded 10 ((2 ^ 64 - sum) % 10000000000)
    else b'-' ∷ decimal_padded 9 (2 ^ 63 % 10000000000)

-- `infineraNodeID`.
unfoldable pub infinera_node_id : Bytes → Bytes
unfolding hash_tid node_id_number
infinera_node_id tid = codes "MA" ++ node_id_number (hash_tid 0 tid)

sum_bytes : Bytes → ℕ
sum_bytes [] = 0
sum_bytes (r ∷ tid) = r + sum_bytes tid

-- `infineraRouterID`.
unfoldable pub infinera_router_id : Bytes → Bytes
unfolding sum_bytes
infinera_router_id tid = codes "11.253.152." ++ decimal (33 + sum_bytes tid % 200)

-- A record of RTRV-TIDMAP.
unfoldable pub tid_record : Bytes → Bytes
tid_record tid = concat (
    codes "   \"::TID="
    ∷ tid
    ∷ codes ",NODEID="
    ∷ infinera_node_id tid
    ∷ codes ",ROUTERID="
    ∷ infinera_router_id tid
    ∷ codes "\"\r\n"
    ∷ [])

abbrev pub tid_records : List Bytes → Bytes
tid_records [] = []
tid_records (tid ∷ tids) = tid_record tid ++ tid_records tids

-- The loop over the pages from `start`, with fuel. Each block reads the clock: `stamp n` for the
-- n-th.
tidmap_loop : (ℕ → Bytes) → Session → Bytes → ℕ → ℕ → ℕ → Bytes
tidmap_loop stamp s ctag zero n start = []
tidmap_loop stamp s ctag (suc fuel) n start =
    let rest = tidmap_loop stamp s ctag fuel (n + 1) (start + infinera_tidmap_page_size) in
    let total = length s.order in
    let end = min (start + infinera_tidmap_page_size) total in
    let page = tid_records (take (end - start) (drop start s.order)) in
    if ltb start total
    then (if end == total
        then block (stamp n) s.sid ctag (codes "COMPLD") page
        else block (stamp n) s.sid ctag (codes "RTRV") page ++ (infinera_prompt ++ rest))
    else []

-- `tidmapPages`.
unfoldable pub tidmap_pages : (ℕ → Bytes) → Session → Bytes → Bytes
unfolding tidmap_loop
tidmap_pages stamp s ctag =
    if length s.order == 0
    then block (stamp 0) s.sid ctag (codes "COMPLD") []
    else tidmap_loop stamp s ctag (length s.order) 0 0

unfoldable pub infinera_eqpt_payload : Bytes → Bytes
infinera_eqpt_payload serial = concat (
    codes "   \"CHASSIS-1::PROVISIONED,TYPE=DTN-X-XTC10,SN="
    ∷ serial
    ∷ codes ",SWVER=R21.3,STATE=IS-NR\"\r\n"
    ∷ [])

abbrev pub infinera_sw_ver_payload : Bytes
infinera_sw_ver_payload = codes "   \"SWVER=R21.3,LOADSTATE=ACTIVE\"\r\n"

unfoldable pub infinera_sys_payload : Bytes → Bytes → Bytes
infinera_sys_payload sid serial = concat (
    codes "   \"" ∷ sid ∷ codes "::TYPE=DTN-X-XTC10,SN=" ∷ serial ∷ codes ",STATE=IS-NR\"\r\n" ∷ [])

-- `switch verb`: every header carries the system name of the node that the client is attached to.
unfoldable pub infinera_verb : Bytes → Parsed → Session → Bytes → Answer
infinera_verb stamp p s eqpt =
    let done = λ (payload : Bytes). text_response (compld stamp s.sid p.ctag payload) in
    if equal p.verb (codes "RTRV-EQPT")
    then (tl1_rtrv_eqpt, eqpt_response stamp s.sid p.ctag eqpt (infinera_eqpt_payload s.serial))
    else if equal p.verb (codes "RTRV-ALM-ALL")
    then (tl1_rtrv_alm_all, done alm_payload)
    else if equal p.verb (codes "RTRV-COND-ALL")
    then (tl1_rtrv_cond_all, done cond_payload)
    else if equal p.verb (codes "RTRV-SW-VER")
    then (tl1_rtrv_sw_ver, done infinera_sw_ver_payload)
    else if equal p.verb (codes "RTRV-SYS")
    then (tl1_rtrv_sys, done (infinera_sys_payload s.sid s.serial))
    else (tl1_deny, text_response (deny stamp s.sid p.ctag (codes "ICNV")))

unfoldable pub infinera_serve : (ℕ → Bytes) → Parsed → Session → Answer
infinera_serve stamp p s =
    if equal p.verb (codes "RTRV-TIDMAP")
    then (tl1_rtrv_tidmap, text_response (tidmap_pages stamp s p.ctag))
    else if tid_is_local p.tid s.sid
    then infinera_verb (stamp 0) p s s.local_eqpt
    else elim (find_section (to_upper p.tid) s.remote_eqpt) [
      | none ↦ (tl1_deny, text_response (deny (stamp 0) s.sid p.ctag (codes "IIAC")))
      | some body ↦ infinera_verb (stamp 0) p s body
    ]

-- `dispatchInfinera`; `stamp n` is the clock at the n-th block of the answer.
unfoldable pub dispatch_infinera : Credentials → (ℕ → Bytes) → Bytes → Session → Answer × Session
unfolding infinera_serve gate
dispatch_infinera c stamp = gate c (stamp 0) (infinera_serve stamp)
