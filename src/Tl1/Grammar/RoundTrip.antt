-- ===== src/Tl1/Grammar/RoundTrip.antt =====
-- Commands as an operator or an NMS writes them, and `parseTL1` and `parseActUser` on them.
use rconfig_sim.Base.{
  leb, length, get_or, take, length-append, Bytes, codes, Lacks, ℕ, suc, ◌-◌, ◌≡◌, refl, sym, ap,
  ◌∙◌, ◌⊎◌, inl, inr, true, [], ◌∷◌, ◌++◌, append_assoc, arith,
}
use rconfig_sim.Text.{is_space, to_upper, trim_space, split, join}
use rconfig_sim.Text.Split.{split-sep, split-Lacks, split_cons, join-split, trim_space_closed}
use rconfig_sim.Tl1.Grammar.{parse_tl1, unquote_tl1, parse_act_user}

abbrev pub colon : Bytes → Bytes → Bytes
colon s t = s ++ (b':' ∷ t)

abbrev pub strict : Bytes → Bytes → Bytes → Bytes → Bytes
strict verb tid aid ctag = colon verb (colon tid (colon aid ctag))

-- The forms of a command: VERB:TID:AID:CTAG, that with more fields, and VERB:TID:CTAG.
abbrev pub Written : Bytes → Bytes → Bytes → Bytes → Bytes → Bytes → Type 0
Written text verb tid aid ctag more =
    (text ≡ strict verb tid aid ctag)
    ⊎ ((text ≡ strict verb tid aid (colon ctag more)) ⊎ (text ≡ colon verb (colon tid ctag)))

-- The strict form VERB:TID:AID:CTAG, with or without more fields behind it, and the short form
-- VERB:TID:CTAG, when their fields hold no colon, all give the verb in upper case, the TID and the
-- CTAG, each without the spaces around it.
pub parse_tl1-Written :
    (raw verb tid aid ctag more : Bytes)
    → Lacks b':' verb
    → Lacks b':' tid
    → Lacks b':' aid
    → Lacks b':' ctag
    → Written (trim_space raw) verb tid aid ctag more
    → parse_tl1 raw
      ≡ record { verb = to_upper (trim_space verb); tid = trim_space tid; ctag = trim_space ctag }
unfolding parse_tl1
parse_tl1-Written raw verb tid aid ctag more v t a c (inl e) = rw (
  e,
  split-sep verb _ b':' v,
  split-sep tid _ b':' t,
  split-sep aid _ b':' a,
  split-Lacks ctag b':' c,
)
parse_tl1-Written raw verb tid aid ctag more v t a c (inr (inl e)) =
    rw
      (
        e,
        split-sep verb _ b':' v,
        split-sep tid _ b':' t,
        split-sep aid _ b':' a,
        split-sep ctag _ b':' c,
      )
      (ground arith)
parse_tl1-Written raw verb tid aid ctag more v t a c (inr (inr e)) =
    rw (e, split-sep verb _ b':' v, split-sep tid _ b':' t, split-Lacks ctag b':' c)

-- ACT-USER::<user>:<ctag>::"<pass>"
abbrev pub act_user : Bytes → Bytes → Bytes → Bytes
act_user user ctag pass =
    strict (codes "ACT-USER") [] user (colon ctag (colon [] (b'"' ∷ (pass ++ (b'"' ∷ [])))))

get_or_last : (s : Bytes) (d : ℕ) → get_or (s ++ (d ∷ [])) (length s) 0 ≡ d
get_or_last [] d = refl
get_or_last (c ∷ s) d = get_or_last s d

take_init : (s : Bytes) (d : ℕ) → take (length s) (s ++ (d ∷ [])) ≡ s
take_init [] d = refl
take_init (c ∷ s) d = ap (◌∷◌ c) (take_init s d)

unquote_tl1_quoted : (pass : Bytes) → unquote_tl1 (b'"' ∷ (pass ++ (b'"' ∷ []))) ≡ pass
unfolding unquote_tl1 is_space
unquote_tl1_quoted pass =
    let l : length (pass ++ (b'"' ∷ [])) ≡ suc (length pass) =
      omega (arith, length-append pass (b'"' ∷ [])) in
    let m : suc (suc (length pass)) - 1 ≡ suc (length pass) = omega arith in
    let k : suc (suc (length pass)) - 2 ≡ length pass = omega arith in
    let t : leb 2 (suc (suc (length pass))) ≡ true = ground arith in
    rw (
      trim_space_closed b'"' pass b'"' refl refl,
      l,
      m,
      k,
      get_or_last pass b'"',
      take_init pass b'"',
      t,
    )

act_user_inner : Bytes → Bytes → Bytes → Bytes
act_user_inner user ctag pass =
    codes "CT-USER::" ++ (user ++ (b':' ∷ (ctag ++ (b':' ∷ b':' ∷ b'"' ∷ pass))))

act_user_closed :
    (user ctag pass : Bytes)
    → act_user user ctag pass ≡ b'A' ∷ (act_user_inner user ctag pass ++ (b'"' ∷ []))
unfolding act_user_inner
act_user_closed user ctag pass = simp append_assoc

trim_space-act_user :
    (user ctag pass : Bytes) → trim_space (act_user user ctag pass) ≡ act_user user ctag pass
unfolding is_space
trim_space-act_user user ctag pass =
    rw (act_user_closed user ctag pass)
      (trim_space_closed b'A' (act_user_inner user ctag pass) b'"' refl refl)

split-act_user :
    (user ctag pass : Bytes)
    → Lacks b':' user
    → Lacks b':' ctag
    → split (act_user user ctag pass) b':'
      ≡ codes "ACT-USER" ∷ [] ∷ user ∷ ctag ∷ [] ∷ split (b'"' ∷ (pass ++ (b'"' ∷ []))) b':'
split-act_user user ctag pass u c = rw (
  split-sep (codes "ACT-USER") _ b':' (omega arith),
  split-sep [] _ b':' tt,
  split-sep user _ b':' u,
  split-sep ctag _ b':' c,
  split-sep [] _ b':' tt,
)

-- An ACT-USER command with a quoted password gives the user name and that password, whatever
-- bytes the password holds, colons, semicolons, quotes and spaces included; the user name and the
-- CTAG hold no colon.
pub parse_act_user-act_user :
    (user ctag pass : Bytes)
    → Lacks b':' user
    → Lacks b':' ctag
    → parse_act_user (act_user user ctag pass) ≡ (unquote_tl1 user, pass)
unfolding parse_act_user
parse_act_user-act_user user ctag pass u c =
    let quoted : Bytes = b'"' ∷ (pass ++ (b'"' ∷ [])) in
    let (p, ps, e) = split_cons quoted b':' in
    let back : unquote_tl1 (join (p ∷ ps) (b':' ∷ [])) ≡ pass =
      ap (λ l. unquote_tl1 (join l (b':' ∷ []))) (sym e)
      ∙ ap unquote_tl1 (join-split quoted b':')
      ∙ unquote_tl1_quoted pass in
    rw (trim_space-act_user user ctag pass, split-act_user user ctag pass u c, e) (ground arith)
