-- ===== src/Line/Printable.antt =====
-- The bytes of a line that `readLine` returns.
use rconfig_sim.Base.{All, All-append, Bytes, ℕ, ◌≡◌, Bool, true, [], ◌∷◌, reverse, arith}
use mathlib.Core.List.{reverse-cons}
use rconfig_sim.Channel.{Channel, Outcome, line, failed}
use rconfig_sim.Channel.Loop.{Keeps, read_loop_inv}
use rconfig_sim.Line.{is_printable, key, read_line}

abbrev pub IsPrintable : Bytes → Type 0
IsPrintable = All (λ c. is_printable c ≡ true)

pub IsPrintable-reverse : (s : Bytes) → IsPrintable s → IsPrintable (reverse s)
IsPrintable-reverse [] h = tt
IsPrintable-reverse (c ∷ s) h = rw reverse-cons (
    All-append (λ c. is_printable c ≡ true) (reverse s) (c ∷ []) (IsPrintable-reverse s h.1)
      (h.0, tt))

abbrev pub Answers : (Bytes → Type 0) → Outcome → Type 0
Answers P (line s) = P s
Answers P (failed f) = Unit

key-IsPrintable :
    (shown : Bool) (buf : Bytes) (c : ℕ)
    → IsPrintable buf
    → Keeps IsPrintable (Answers IsPrintable) (key shown buf c)
unfolding key
key-IsPrintable shown [] c h = ground arith
key-IsPrintable shown (b ∷ buf) c h = ground (arith, IsPrintable-reverse (b ∷ buf) h)

-- Whatever the client sends, a line that is returned is made of printable ASCII.
pub read_line-IsPrintable :
    (shown : Bool) (ch : Channel) → Answers IsPrintable (read_line shown ch).0
unfolding read_line
read_line-IsPrintable shown ch =
    read_loop_inv IsPrintable (Answers IsPrintable) (key shown) (key-IsPrintable shown) tt ch.input
      [] ch tt
