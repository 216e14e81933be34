-- ===== src/Tl1/Grammar.antt =====
-- internal/sshsrv/tl1.go: `parseTL1`, `parseActUser`, `unquoteTL1`, `tidIsLocal`.
pub mod RoundTrip
use rconfig_sim.Base.{
  ltb, leb, ◌==◌, if◌then◌else◌, length, get_or, take, drop, Bytes, codes, equal, ◌-◌, Bool, ◌&&◌,
  ◌||◌, List, [], ◌∷◌,
}
use rconfig_sim.Text.{to_upper, trim_space, split, join}

abbrev pub last_or : Bytes → List Bytes → Bytes
last_or d [] = d
last_or d (p ∷ ps) = last_or p ps

pub record Parsed : Type 0 where
  pub verb : Bytes
  pub tid : Bytes
  pub ctag : Bytes

-- On the fields: an absent field reads as the empty text.
unfoldable pub parse_fields : List Bytes → Parsed
parse_fields fs = record {
  verb = if ltb 0 (length fs) then to_upper (trim_space (get_or fs 0 [])) else [];
  tid = if ltb 1 (length fs) then trim_space (get_or fs 1 []) else [];
  ctag =
      if leb 4 (length fs)
      then trim_space (get_or fs 3 [])
      else if ltb 0 (length fs)
      then trim_space (last_or [] fs)
      else [];
}

-- `parseTL1`.
unfoldable pub parse_tl1 : Bytes → Parsed
unfolding parse_fields
parse_tl1 raw = parse_fields (split (trim_space raw) b':')

-- `s[1 : len(s)-1]` at a text of two bytes or more that a quote begins and ends.
unfoldable pub unquote_trimmed : Bytes → Bytes
unquote_trimmed s =
    if leb 2 (length s) && (get_or s 0 0 == b'"' && get_or s (length s - 1) 0 == b'"')
    then take (length s - 2) (drop 1 s)
    else s

-- `unquoteTL1`.
unfoldable pub unquote_tl1 : Bytes → Bytes
unfolding unquote_trimmed
unquote_tl1 s = unquote_trimmed (trim_space s)

-- `parseActUser`: the user name and the password.
unfoldable pub parse_act_user : Bytes → Bytes × Bytes
parse_act_user raw =
    let fs = split (trim_space raw) b':' in
    (
      if ltb 2 (length fs) then unquote_tl1 (get_or fs 2 []) else [],
      if ltb 5 (length fs) then unquote_tl1 (join (drop 5 fs) (b':' ∷ [])) else [],
    )

-- `tidIsLocal`.
unfoldable pub tid_is_local : Bytes → Bytes → Bool
tid_is_local tid own_sid =
    let t = to_upper (trim_space tid) in
    equal t [] || equal t (codes "ALL") || equal t (to_upper own_sid)
