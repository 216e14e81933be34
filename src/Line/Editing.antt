-- ===== src/Line/Editing.antt =====
-- `readLine` against an editor on plain texts.
use rconfig_sim.Channel.Loop.{read_loop_next, read_loop_return}
use mathlib.Core.List.{reverse-cons}
use rconfig_sim.Base.{
  ◌==◌, if◌then◌else◌, Bool-cases, drop, Bytes, codes, crlf, ℕ, ◌≡◌, refl, sym, ap, ◌∙◌, ◌≢◌, inl,
  inr, Bool, true, false, ◌&&◌, ◌||◌, List, [], ◌∷◌, ◌++◌, reverse, arith,
}
use rconfig_sim.Channel.{
  echo, read_loop, Read, byte, nothing, Channel, eof, user_aborted, Outcome, line, failed, Action,
  next, return,
}
use rconfig_sim.Line.{is_printable, rubout, ctrl_d, key, read_line}

abbrev pub drop_last : Bytes → Bytes
drop_last [] = []
drop_last (c ∷ []) = []
drop_last (c ∷ d ∷ s) = c ∷ drop_last (d ∷ s)

-- The text after one more key: rubouts take a byte off its end, printable bytes are added.
abbrev pub edit : Bytes → ℕ → Bytes
edit text c =
    if c == 0x7f || c == 0x08
    then drop_last text
    else if is_printable c
    then text ++ (c ∷ [])
    else text

abbrev pub is_end : ℕ → Bool
is_end c = c == 0x0d || c == 0x0a

abbrev is_blank : Bytes → Bool
is_blank [] = true
is_blank (c ∷ s) = false

-- A plain editor on what the client sends: how the line ends, and what is left of the input. Ctrl-C
-- aborts; Ctrl-D ends the input on an empty line, and is ignored on any other.
abbrev pub edit_line : Bytes → List Read → Outcome × List Read
edit_line text [] = (failed eof, [])
edit_line text (nothing ∷ rest) = edit_line text rest
edit_line text (byte c ∷ rest) =
    let later = edit_line (edit text c) rest in
    if is_end c
    then (line text, rest)
    else if c == 0x03
    then (failed user_aborted, rest)
    else if c == 0x04 && is_blank text
    then (failed eof, rest)
    else later

-- A key that neither ends the line nor leaves it.
abbrev IsEditing : ℕ → Type 0
IsEditing c = (c ≢ 0x0d) × (c ≢ 0x0a) × (c ≢ 0x03) × (c ≢ 0x04)

drop_last-concat : (s : Bytes) (c : ℕ) → drop_last (s ++ (c ∷ [])) ≡ s
drop_last-concat [] c = refl
drop_last-concat (d ∷ []) c = refl
drop_last-concat (d ∷ e ∷ s) c = ap (◌∷◌ d) (drop_last-concat (e ∷ s) c)

-- The same on a buffer with the last byte first, and what is echoed.
abbrev edit_buf : Bytes → ℕ → Bytes
edit_buf buf c =
    if c == 0x7f || c == 0x08 then drop 1 buf else if is_printable c then c ∷ buf else buf

abbrev echoed : Bytes → ℕ → Bytes
echoed [] c = if is_printable c then c ∷ [] else []
echoed (b ∷ buf) c =
    if c == 0x7f || c == 0x08 then rubout else if is_printable c then c ∷ [] else []

key-edit_buf :
    (shown : Bool) (buf : Bytes) (c : ℕ)
    → IsEditing c
    → key shown buf c ≡ next (edit_buf buf c) (if shown then echoed buf c else [])
unfolding key
key-edit_buf shown [] c h = ground arith
key-edit_buf shown (b ∷ buf) c h = ground arith

reverse-edit_buf : (buf : Bytes) (c : ℕ) → reverse (edit_buf buf c) ≡ edit (reverse buf) c
reverse-edit_buf [] c = ground arith
reverse-edit_buf (b ∷ buf) c =
    ground (arith, reverse-cons b buf, reverse-cons c (b ∷ buf), drop_last-concat (reverse buf) b)

is_blank-concat : (s : Bytes) (c : ℕ) → is_blank (s ++ (c ∷ [])) ≡ false
is_blank-concat [] c = refl
is_blank-concat (d ∷ s) c = refl

-- What the editor does on a byte, where the reader takes this action.
abbrev Agrees : Bytes → ℕ → List Read → Action Bytes → Type 0
Agrees buf c rest (next t out) =
    edit_line (reverse buf) (byte c ∷ rest) ≡ edit_line (reverse t) rest
Agrees buf c rest (return r out) = edit_line (reverse buf) (byte c ∷ rest) ≡ (r, rest)

key_end :
    (shown : Bool) (c : ℕ) (buf : Bytes)
    → is_end c ≡ true
    → key shown buf c ≡ return (line (reverse buf)) crlf
unfolding key
key_end shown c buf h = ground arith

key_abort :
    (shown : Bool) (c : ℕ) (buf : Bytes)
    → (c == 0x03) ≡ true
    → key shown buf c ≡ return (failed user_aborted) (codes "^C\r\n")
unfolding key
key_abort shown c buf h = ground arith

key-ctrl_d :
    (shown : Bool) (c : ℕ) (buf : Bytes) → (c == 0x04) ≡ true → key shown buf c ≡ ctrl_d buf
unfolding key
key-ctrl_d shown c buf h = ground arith

-- Ctrl-D, on an empty line and on another.
ctrl_d-Agrees :
    (c : ℕ) (buf : Bytes) (rest : List Read)
    → is_end c ≡ false
    → (c == 0x03) ≡ false
    → (c == 0x04) ≡ true
    → Agrees buf c rest (ctrl_d buf)
unfolding ctrl_d
ctrl_d-Agrees c [] rest e a d = rw (e, a, d) refl
ctrl_d-Agrees c (b ∷ buf) rest e a d =
    let k : is_blank (reverse (b ∷ buf)) ≡ false =
      ap is_blank (reverse-cons b buf) ∙ is_blank-concat (reverse buf) b in
    let i : edit (reverse (b ∷ buf)) c ≡ reverse (b ∷ buf) = ground arith in rw (e, a, d, k, i) refl

key-Agrees :
    (shown : Bool) (c : ℕ) (buf : Bytes) (rest : List Read) → Agrees buf c rest (key shown buf c)
key-Agrees shown c buf rest = elim (Bool-cases (is_end c)) [
  | inl e ↦ rw (key_end shown c buf e, e) refl
  | inr e ↦ elim (Bool-cases (c == 0x03)) [
    | inl a ↦ rw (key_abort shown c buf a, e, a) refl
    | inr a ↦ elim (Bool-cases (c == 0x04)) [
      | inl d ↦ rw (key-ctrl_d shown c buf d) (ctrl_d-Agrees c buf rest e a d)
      | inr d ↦
          let k = key-edit_buf shown buf c (ground arith) in
          rw (k, e, a, d) (ap (λ (t : Bytes). edit_line t rest) (sym (reverse-edit_buf buf c)))
    ]
  ]
]

-- The outcome and the input that is left are the editor's.
abbrev IsEdited : List Read → Bytes → Outcome × Channel → Type 0
IsEdited input buf (o, ch) =
    (o ≡ (edit_line (reverse buf) input).0) × (ch.input ≡ (edit_line (reverse buf) input).1)

module _ (shown : Bool) where
  step-IsEdited :
      (c : ℕ) (buf : Bytes) (rest : List Read) (ch : Channel) (a : Action Bytes)
      → key shown buf c ≡ a
      → Agrees buf c rest a
      → ((t : Bytes) (k : Channel) → IsEdited rest t (read_loop (key shown) rest t k))
      → IsEdited (byte c ∷ rest) buf (read_loop (key shown) (byte c ∷ rest) buf ch)
  step-IsEdited c buf rest ch (next t out) e g later =
      rw (read_loop_next (key shown) c rest buf ch t out e, g) (later t (echo out ch))
  step-IsEdited c buf rest ch (return r out) e g later =
      rw (read_loop_return (key shown) c rest buf ch r out e, g) (refl, refl)

  read_loop-IsEdited :
      (input : List Read) (buf : Bytes) (ch : Channel)
      → IsEdited input buf (read_loop (key shown) input buf ch)
  unfolding read_loop
  read_loop-IsEdited [] buf ch = (refl, refl)
  read_loop-IsEdited (nothing ∷ rest) buf ch = read_loop-IsEdited rest buf ch
  read_loop-IsEdited (byte c ∷ rest) buf ch =
      step-IsEdited c buf rest ch (key shown buf c) refl (key-Agrees shown c buf rest)
        (read_loop-IsEdited rest)

-- Whatever the client sends, and with echo or without, the line ends as a plain editor ends it, with
-- the same text, and leaves the same input. In the editor a rubout takes back one byte; CR and LF each
-- end a line, so that the LF of a CRLF is left and ends the next one, where the source's comment says
-- that it is swallowed; Ctrl-C aborts; Ctrl-D on an empty line ends the input; all other control keys
-- are ignored.
pub read_line-edits :
    (shown : Bool) (ch : Channel)
    → ((read_line shown ch).0 ≡ (edit_line [] ch.input).0)
      × ((read_line shown ch).1.input ≡ (edit_line [] ch.input).1)
unfolding read_line
read_line-edits shown ch = read_loop-IsEdited shown ch.input [] ch
