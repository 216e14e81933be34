-- ===== src/Drivers/Node.antt =====
-- What the three TL1 drivers of internal/sshsrv have in common: the per-channel session
-- (`cienaSession`, `infineraSession` and `ciscoONSSession` have the same fields), the check of the
-- credentials (`validTL1Login` in tl1.go) and the login gate that each dispatch begins with.
use rconfig_sim.Base.{
  ltb, if◌then◌else◌, length, Bytes, codes, equal, Bool, true, false, not, ◌&&◌, List, [], ◌∷◌,
}
use rconfig_sim.Command.{Command, tl1_unknown, tl1_deny, tl1_act_user}
use rconfig_sim.Text.{to_upper}
use rconfig_sim.Tl1.Grammar.{parse_tl1, parse_act_user, Parsed}
use rconfig_sim.Tl1.Block.{concat, compld_header, terminator, compld, deny}
use rconfig_sim.Response.{no_response, text_response, Response}
use rconfig_sim.Tl1.Sections.{index_sections}

-- The accepted credentials of `sessionCtx`; an empty one accepts any.
pub record Credentials : Type 0 where
  pub username : Bytes
  pub password : Bytes

pub record Session : Type 0 where
  pub logged_in : Bool
  pub sid : Bytes
  pub serial : Bytes
  pub local_eqpt : Bytes
  pub remote_eqpt : List (Bytes × Bytes)
  pub order : List Bytes

-- The session that `Serve` builds: the sections are indexed if the device has data.
unfoldable pub new_session : Bytes → Bytes → Bytes → Bytes → Session
new_session marker hostname serial_number data_bytes =
    let sections = index_sections data_bytes marker in
    let start : Session = record {
      logged_in = false;
      sid = hostname;
      serial = serial_number;
      local_eqpt = [];
      remote_eqpt = [];
      order = [];
    } in
    if ltb 0 (length data_bytes)
    then record start {
      local_eqpt = sections.local_eqpt;
      remote_eqpt = sections.remote_eqpt;
      order = sections.order;
    }
    else start

-- `validTL1Login`.
unfoldable pub valid_tl1_login : Credentials → Bytes → Bytes → Bool
valid_tl1_login c user pass =
    if not (equal c.password []) && not (equal pass c.password)
    then false
    else if not (equal c.username []) && not (equal user c.username)
    then false
    else true

-- `actUserPayload`.
unfoldable pub act_user_payload : Bytes → Bytes
act_user_payload user =
    concat (
      codes "   /*AUTHTYPE=LOCAL*/\r\n"
      ∷ codes "   /*USERID="
      ∷ to_upper user
      ∷ codes "*/\r\n"
      ∷ [])

-- `almPayload`.
abbrev pub alm_payload : Bytes
alm_payload = concat (
    codes "   \"SLOT-2:MN,CONTBUS,SA,,,,:\\\"Intermittent equipment communication\\\"\"\r\n"
    ∷ codes "   \"SLOT-7:MJ,T-LOS,NSA,,,,:\\\"Loss of signal\\\"\"\r\n"
    ∷ [])

-- `condPayload`.
abbrev pub cond_payload : Bytes
cond_payload = codes "   \"SLOT-1:T-OPR-OCH,NEND,,,,,:\\\"Optical power received\\\"\"\r\n"

abbrev pub Answer : Type 0
Answer = Command × Response

abbrev pub act_user_verb : Bytes
act_user_verb = codes "ACT-USER"

-- ACT-USER: on success the session is logged in.
login : Credentials → Bytes → Bytes → Bytes → Session → Answer × Session
login c stamp raw ctag s =
    let (user, pass) = parse_act_user raw in
    if valid_tl1_login c user pass
    then (
      (tl1_act_user, text_response (compld stamp s.sid ctag (act_user_payload user))),
      record s { logged_in = true },
    )
    else ((tl1_deny, text_response (deny stamp s.sid ctag (codes "PLNA"))), s)

-- The beginning of every dispatch: an empty verb is ignored, ACT-USER logs in, and any other verb
-- needs a login. `serve` is the vendor's own part.
unfoldable pub gate :
    Credentials → Bytes → (Parsed → Session → Answer) → Bytes → Session → Answer × Session
unfolding login
gate c stamp serve raw s =
    let p = parse_tl1 raw in
    if equal p.verb []
    then ((tl1_unknown, no_response), s)
    else if equal p.verb act_user_verb
    then login c stamp raw p.ctag s
    else if not s.logged_in
    then ((tl1_deny, text_response (deny stamp s.sid p.ctag (codes "PLNA"))), s)
    else (serve p s, s)

-- RTRV-EQPT: the inventory streamed between header and terminator, or a canned block if there is none.
unfoldable pub eqpt_response : Bytes → Bytes → Bytes → Bytes → Bytes → Response
eqpt_response stamp resp_sid ctag eqpt canned =
    if ltb 0 (length eqpt)
    then record no_response {
      output = compld_header stamp resp_sid ctag;
      config_output = eqpt;
      trailer = terminator;
    }
    else text_response (compld stamp resp_sid ctag canned)
