-- ===== src/Drivers/Relay.antt =====
-- From the data of a gateway to the answer for a node behind it.
use rconfig_sim.Drivers.Login.{any_logs_in, run_commands-session}
use rconfig_sim.Drivers.Routing.{rtrv_eqpt, relay_sid, streamed, addressed, dispatch_tl1-addressed}
use rconfig_sim.Tl1.Grammar.RoundTrip.{strict, parse_tl1-Written}
use rconfig_sim.Tl1.Grammar.{parse_tl1, tid_is_local, Parsed}
use rconfig_sim.Command.{tl1_rtrv_eqpt}
use rconfig_sim.Base.{
  ltb, length, length-append, All, Bytes, codes, equal, equal_iff, equal_refl, Lacks, ℕ, ◌≡◌, refl,
  ap, ◌∙◌, ◌≢◌, inl, true, false, none, some, List, [], ◌∷◌, ◌++◌, map, arith,
}
use rconfig_sim.Drivers.Node.{new_session, Credentials, Session}
use rconfig_sim.Drivers.Vendor.{
  dispatch_tl1, vendor_marker, run_commands, Vendor, ciena_tl1, infinera_tl1, cisco_ons_tl1,
}
use rconfig_sim.Tl1.Sections.{find_section}
use rconfig_sim.Tl1.Sections.Lines.{EndsLine, IsClean}
use rconfig_sim.Tl1.Sections.RoundTrip.{render, IsSection, named, index_sections-render}
use rconfig_sim.Text.{upper, to_upper, trim_space}

-- Every marker begins with a semicolon.
abbrev pub marker_tail : Vendor → Bytes
marker_tail ciena_tl1 = codes ";RNE "
marker_tail infinera_tl1 = codes ";NODE "
marker_tail cisco_ons_tl1 = codes ";ENE "

pub marker-Lacks : (v : Vendor) → Lacks b'\n' (b';' ∷ marker_tail v)
marker-Lacks ciena_tl1 = omega arith
marker-Lacks infinera_tl1 = omega arith
marker-Lacks cisco_ons_tl1 = omega arith

vendor_marker-tail : (v : Vendor) → vendor_marker v ≡ b';' ∷ marker_tail v
unfolding vendor_marker
vendor_marker-tail ciena_tl1 = refl
vendor_marker-tail infinera_tl1 = refl
vendor_marker-tail cisco_ons_tl1 = refl

-- The data of a gateway: a local part, and sections under the vendor's marker.
abbrev pub data_of : Vendor → Bytes → List (Bytes × Bytes) → Bytes
data_of v local secs = local ++ render b';' (marker_tail v) (marker-Lacks v) secs

-- The data can be read back: whole lines, of which only the headers of sections begin with the marker,
-- and TIDs that are on one line and not blank.
abbrev pub IsData : Vendor → Bytes → List (Bytes × Bytes) → Type 0
IsData v local secs =
    EndsLine local
    × IsClean (b';' ∷ marker_tail v) true local
    × All (IsSection b';' (marker_tail v) (marker-Lacks v)) secs

-- A section of another name.
abbrev pub OtherName : Bytes → Bytes × Bytes → Type 0
OtherName tid s = to_upper (trim_space s.0) ≢ to_upper (trim_space tid)

module _ (v : Vendor) where
  abbrev names_of : List (Bytes × Bytes) → List (Bytes × Bytes)
  names_of secs = named b';' (marker_tail v) (marker-Lacks v) secs

  find_section-none :
      (tid : Bytes) (after : List (Bytes × Bytes))
      → All (OtherName tid) after
      → find_section (to_upper (trim_space tid)) (names_of after) ≡ none
  unfolding find_section
  find_section-none tid [] h = refl
  find_section-none tid ((t, body) ∷ after) h =
      let a = find_section-none tid after h.1 in
      let b : equal (to_upper (trim_space t)) (to_upper (trim_space tid)) ≡ false =
        ground (arith, equal_iff (to_upper (trim_space t)) (to_upper (trim_space tid))) in
      rw (a, b) refl

  find_section-last :
      (tid body : Bytes) (before after : List (Bytes × Bytes))
      → All (OtherName tid) after
      → find_section (to_upper (trim_space tid)) (names_of (before ++ ((tid, body) ∷ after)))
        ≡ some body
  unfolding find_section
  find_section-last tid body [] after h =
      rw (find_section-none tid after h, equal_refl (to_upper (trim_space tid))) refl
  find_section-last tid body ((t, b) ∷ before) after h =
      rw (find_section-last tid body before after h) refl

  length-data_of :
      (local : Bytes) (before after : List (Bytes × Bytes)) (s : Bytes × Bytes)
      → ltb 0 (length (data_of v local (before ++ (s ∷ after)))) ≡ true
  length-data_of local [] after s =
      let n = length-append local (render b';' (marker_tail v) (marker-Lacks v) (s ∷ after)) in
      ground arith
  length-data_of local (b ∷ before) after s =
      let n =
        length-append local
          (render b';' (marker_tail v) (marker-Lacks v) (b ∷ (before ++ (s ∷ after)))) in
      ground arith

  -- The session that is opened on the data.
  new_session-data_of :
      (host serial local : Bytes) (before after : List (Bytes × Bytes)) (s : Bytes × Bytes)
      → IsData v local (before ++ (s ∷ after))
      → let secs = before ++ (s ∷ after) in
        new_session (vendor_marker v) host serial (data_of v local secs) ≡ record {
          logged_in = false;
          sid = host;
          serial = serial;
          local_eqpt = local;
          remote_eqpt = names_of secs;
          order = map (λ (x : Bytes × Bytes). x.0) (names_of secs);
        }
  unfolding new_session
  new_session-data_of host serial local before after s (e, c, h) =
      let t = length-data_of local before after s in
      let i =
        index_sections-render b';' (marker_tail v) (marker-Lacks v) local (before ++ (s ∷ after)) e
          c h in
      rw (vendor_marker-tail v, t, i) refl

-- RTRV-EQPT:tid:aid:ctag, with space around it.
abbrev pub IsEqptCommand : Bytes → Bytes → Bytes → Bytes → Type 0
IsEqptCommand raw tid aid ctag =
    Lacks b':' tid
    × Lacks b':' aid
    × Lacks b':' ctag
    × (trim_space raw ≡ strict rtrv_eqpt tid aid ctag)

trim_rtrv_eqpt : to_upper (trim_space rtrv_eqpt) ≡ rtrv_eqpt
unfolding trim_space upper
trim_rtrv_eqpt = refl

addressed_remote :
    (v : Vendor) (s : Session) (tid body : Bytes)
    → tid_is_local tid s.sid ≡ false
    → find_section (to_upper tid) s.remote_eqpt ≡ some body
    → addressed v s tid ≡ some (relay_sid v s tid, body)
addressed_remote v s tid body l f = rw (l, f) refl

-- A gateway is opened on data with a local part and sections. After any run of commands with an
-- accepted ACT-USER among them, the command RTRV-EQPT:tid:aid:ctag for the TID of a section is answered
-- with the body of this section, between a header and the terminator, if the body is not empty, no
-- later section has the name, and the name does not mean the gateway. The header carries the TID in
-- upper case on Ciena and on Cisco ONS, and the gateway's own name on Infinera. The session stays as it
-- is. In the data, lines are whole, of which only headers of sections begin with the marker, and TIDs
-- are on one line and not blank; the fields of the command hold no colon.
pub dispatch_tl1-relayed :
    (v : Vendor) (c : Credentials) (stamp : ℕ → Bytes) (host serial local : Bytes)
    (before after : List (Bytes × Bytes)) (tid body : Bytes) (raws : List Bytes)
    (raw aid ctag : Bytes)
    → IsData v local (before ++ ((tid, body) ∷ after))
    → All (OtherName tid) after
    → body ≢ []
    → tid_is_local (trim_space tid) host ≡ false
    → any_logs_in c stamp raws ≡ true
    → IsEqptCommand raw tid aid ctag
    → let s : Session =
        (run_commands v c stamp raws (
          new_session
            (vendor_marker v)
            host
            serial
            (data_of v local (before ++ ((tid, body) ∷ after))))).1 in
      dispatch_tl1 v c stamp raw s ≡ (
        (tl1_rtrv_eqpt, streamed (stamp 0) (relay_sid v s (trim_space tid)) (trim_space ctag) body),
        s,
      )
dispatch_tl1-relayed v c stamp host serial local before after tid body raws raw aid ctag d o b l g
      (t, a, k, e) =
    let start =
      new_session (vendor_marker v) host serial
        (data_of v local (before ++ ((tid, body) ∷ after))) in
    let s = (run_commands v c stamp raws start).1 in
    let opened = new_session-data_of v host serial local before after (tid, body) d in
    let run = run_commands-session c stamp v raws start in
    let on : s.logged_in ≡ true = ap (λ (x : Session). x.logged_in) run ∙ ground arith in
    let sid : s.sid ≡ host = ap (λ (x : Session). x.sid) run ∙ ap (λ (x : Session). x.sid) opened in
    let remote : s.remote_eqpt ≡ names_of v (before ++ ((tid, body) ∷ after)) =
      ap (λ (x : Session). x.remote_eqpt) run ∙ ap (λ (x : Session). x.remote_eqpt) opened in
    let p = parse_tl1-Written raw rtrv_eqpt tid aid ctag [] (omega arith) t a k (inl e) in
    let verb : (parse_tl1 raw).verb ≡ rtrv_eqpt = ap (λ (x : Parsed). x.verb) p ∙ trim_rtrv_eqpt in
    let name : (parse_tl1 raw).tid ≡ trim_space tid = ap (λ (x : Parsed). x.tid) p in
    let tag : (parse_tl1 raw).ctag ≡ trim_space ctag = ap (λ (x : Parsed). x.ctag) p in
    let far : tid_is_local (trim_space tid) s.sid ≡ false = rw sid l in
    let found : find_section (to_upper (trim_space tid)) s.remote_eqpt ≡ some body =
      rw remote (find_section-last v tid body before after o) in
    let q : addressed v s (parse_tl1 raw).tid ≡ some (relay_sid v s (trim_space tid), body) =
      rw name (addressed_remote v s (trim_space tid) body far found) in
    let done =
      dispatch_tl1-addressed v c stamp raw s (relay_sid v s (trim_space tid)) body on verb q b in
    rw tag at done
