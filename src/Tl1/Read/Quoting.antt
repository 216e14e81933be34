-- ===== src/Tl1/Read/Quoting.antt =====
-- Quotes and semicolons in `readTL1`.
use rconfig_sim.Base.{
  ◌==◌, if◌then◌else◌, All-append, Bytes, crlf, ℕ, ◌≡◌, refl, sym, ap, ◌∙◌, ◌≢◌, ◌⊎◌, Bool, true,
  false, not, ◌&&◌, Option, none, some, List, [], ◌∷◌, ◌++◌, reverse, append-nil, append_assoc,
  arith,
}
use mathlib.Core.List.{reverse-cons}
use rconfig_sim.Channel.{typed, echo, read_loop, Read, byte, Channel, Outcome, line, next, return}
use rconfig_sim.Channel.Loop.{read_loop_next, read_loop_return, Keeps, read_loop_inv}
use rconfig_sim.Line.{is_printable}
use rconfig_sim.Line.Printable.{IsPrintable, Answers}
use rconfig_sim.Tl1.Read.{tl1_key, read_tl1, Scan}

-- Reads a text byte by byte inside or outside quotes: the flag at the end, or `none` if a semicolon
-- stands outside quotes.
abbrev pub quotes : Bool → Bytes → Option Bool
quotes q [] = some q
quotes q (c ∷ s) =
    let rest = quotes (if c == b'"' then not q else q) s in
    if c == b';' && not q then none else rest

-- A text that one TL1 command can be: printable, its quotes closed, its semicolons inside them.
abbrev pub IsCommand : Bytes → Type 0
IsCommand s = (quotes false s ≡ some false) × IsPrintable s

quotes-concat :
    (s : Bytes) (c : ℕ) (q r : Bool)
    → quotes q s ≡ some r
    → quotes q (s ++ (c ∷ [])) ≡ quotes r (c ∷ [])
quotes-concat [] c q r h = ground arith
quotes-concat (d ∷ s) c q r h = ground (arith, quotes-concat s c (if d == b'"' then not q else q) r)

-- The invariant of the loop, on the buffer with the last byte first.
abbrev Quoted : Bytes → Bool → Type 0
Quoted [] q = q ≡ false
Quoted (c ∷ buf) q =
    let q' = if c == b'"' then not q else q in
    (is_printable c ≡ true) × ((c ≢ b';') ⊎ (q' ≡ true)) × Quoted buf q'

abbrev Inv : Scan → Type 0
Inv s = Quoted s.buf s.in_quote

Quoted-IsCommand :
    (buf : Bytes) (q : Bool)
    → Quoted buf q
    → (quotes false (reverse buf) ≡ some q) × IsPrintable (reverse buf)
Quoted-IsCommand [] q h = ground arith
Quoted-IsCommand (c ∷ buf) q (p, semi, h) =
    let (e, all) = Quoted-IsCommand buf (if c == b'"' then not q else q) h in
    rw reverse-cons (
      quotes-concat (reverse buf) c false _ e ∙ ground arith,
      All-append (λ c. is_printable c ≡ true) (reverse buf) (c ∷ []) all (p, tt),
    )

tl1_key-Inv :
    (buf : Bytes) (q : Bool) (c : ℕ)
    → Quoted buf q
    → Keeps Inv (Answers IsCommand) (tl1_key (record { buf = buf; in_quote = q }) c)
unfolding tl1_key
tl1_key-Inv [] q c h = ground (arith)
tl1_key-Inv (b ∷ buf) q c h = ground (arith, Quoted-IsCommand (b ∷ buf) q h)

-- Whatever the client sends, a command that `readTL1` returns has its quotes closed, no semicolon
-- outside them, and printable bytes only.
pub read_tl1-IsCommand : (ch : Channel) → Answers IsCommand (read_tl1 ch).0
unfolding read_tl1
read_tl1-IsCommand ch =
    read_loop_inv Inv (Answers IsCommand) tl1_key (λ s c h. tl1_key-Inv s.buf s.in_quote c h) tt
      ch.input _ ch refl

-- One byte of a command goes into the buffer.
tl1_key_data :
    (buf : Bytes) (q : Bool) (c : ℕ) (s : Bytes)
    → is_printable c ≡ true
    → quotes q (c ∷ s) ≡ some false
    → (tl1_key (record { buf = buf; in_quote = q }) c
        ≡ next (record { buf = c ∷ buf; in_quote = if c == b'"' then not q else q }) (c ∷ []))
      × (quotes (if c == b'"' then not q else q) s ≡ some false)
unfolding tl1_key
tl1_key_data buf q c s p h = ground arith

tl1_key_end :
    (buf : Bytes)
    → tl1_key (record { buf = buf; in_quote = false }) b';'
      ≡ return (line (reverse buf)) (b';' ∷ crlf)
unfolding tl1_key
tl1_key_end buf = refl

read_loop_command :
    (s buf : Bytes) (q : Bool) (rest : List Read) (ch : Channel)
    → quotes q s ≡ some false
    → IsPrintable s
    → let r =
        read_loop tl1_key (typed s ++ (byte b';' ∷ rest)) (record { buf = buf; in_quote = q }) ch in
      (r.0 ≡ line (reverse buf ++ s)) × (r.1.input ≡ rest)
read_loop_command [] buf true rest ch h p = cc
read_loop_command [] buf false rest ch h p =
    let e = read_loop_return tl1_key b';' rest _ ch _ _ (tl1_key_end buf) in
    (
      ap (λ (r : Outcome × Channel). r.0) e ∙ ap line (sym (append-nil (reverse buf))),
      ap (λ (r : Outcome × Channel). r.1.input) e,
    )
read_loop_command (c ∷ s) buf q rest ch h p =
    let (step, h') = tl1_key_data buf q c s p.0 h in
    let q' : Bool = if c == b'"' then not q else q in
    let e =
      read_loop_next tl1_key c (typed s ++ (byte b';' ∷ rest)) (record { buf = buf; in_quote = q })
        ch _ _ step in
    let (r0, r1) = read_loop_command s (c ∷ buf) q' rest (echo (c ∷ []) ch) h' p.1 in
    (
      ap (λ (r : Outcome × Channel). r.0) e
          ∙ r0
          ∙ ap line (ap (λ t. t ++ s) (reverse-cons c buf) ∙ append_assoc (reverse buf) (c ∷ []) s),
      ap (λ (r : Outcome × Channel). r.1.input) e ∙ r1,
    )

-- A command typed as one, quoted semicolons and colons included, is read whole up to the semicolon
-- that ends it, and the rest of the input is left.
pub read_tl1-command :
    (s : Bytes) (rest : List Read) (ch : Channel)
    → IsCommand s
    → ch.input ≡ typed s ++ (byte b';' ∷ rest)
    → ((read_tl1 ch).0 ≡ line s) × ((read_tl1 ch).1.input ≡ rest)
unfolding read_tl1
read_tl1-command s rest ch h i =
    let start : Scan = record { buf = []; in_quote = false } in
    let (r0, r1) = read_loop_command s [] false rest ch h.0 h.1 in
    let e = ap (λ input. read_loop tl1_key input start ch) i in
    (ap (λ (r : Outcome × Channel). r.0) e ∙ r0, ap (λ (r : Outcome × Channel). r.1.input) e ∙ r1)
