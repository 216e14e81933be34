-- ===== src/Channel/Loop.antt =====
-- The byte loop: one step, a run over many bytes, and what an invariant of its state gives.
use rconfig_sim.Base.{Bytes, ℕ, ◌≡◌, refl, sym, List, [], ◌∷◌}
use mathlib.Core.Path.{subst}
use rconfig_sim.Channel.{
  echo, read_loop, Read, byte, nothing, Channel, eof, Outcome, failed, Action, next, return,
}

module _ {S : Type 0} (step : S → ℕ → Action S) (c : ℕ) (rest : List Read) (s : S)
    (ch : Channel) where
  pub read_loop_next :
      (t : S) (out : Bytes)
      → step s c ≡ next t out
      → read_loop step (byte c ∷ rest) s ch ≡ read_loop step rest t (echo out ch)
  unfolding read_loop
  read_loop_next t out e = rw (e, read_loop)

  pub read_loop_return :
      (r : Outcome) (out : Bytes)
      → step s c ≡ return r out
      → read_loop step (byte c ∷ rest) s ch ≡ (r, record (echo out ch) { input = rest })
  unfolding read_loop
  read_loop_return r out e = rw (e, read_loop)

pub read_loop_skip :
    {S : Type 0} (step : S → ℕ → Action S) (rest : List Read) (s : S) (ch : Channel)
    → read_loop step (nothing ∷ rest) s ch ≡ read_loop step rest s ch
unfolding read_loop
read_loop_skip step rest s ch = refl

-- What the action leaves: a state that satisfies `P`, or an answer that satisfies `Q`.
abbrev pub Keeps : {S : Type 0} → (S → Type 0) → (Outcome → Type 0) → Action S → Type 0
Keeps P Q (next s out) = P s
Keeps P Q (return r out) = Q r

Keeps-loop :
    {S : Type 0} (P : S → Type 0) (Q : Outcome → Type 0) (step : S → ℕ → Action S)
    (rest : List Read) (ch : Channel) (a : Action S)
    → ((s : S) (ch : Channel) → P s → Q (read_loop step rest s ch).0)
    → Keeps P Q a
    → (c : ℕ) (s : S) → step s c ≡ a
    → Q (read_loop step (byte c ∷ rest) s ch).0
Keeps-loop P Q step rest ch (next t out) later k c s e =
    rw (read_loop_next step c rest s ch t out e) (later t (echo out ch) k)
Keeps-loop P Q step rest ch (return r out) later k c s e =
    rw (read_loop_return step c rest s ch r out e) k

-- An invariant that every byte keeps holds of the answer, whatever the client sends.
pub read_loop_inv :
    {S : Type 0} (P : S → Type 0) (Q : Outcome → Type 0) (step : S → ℕ → Action S)
    → ((s : S) (c : ℕ) → P s → Keeps P Q (step s c))
    → Q (failed eof)
    → (input : List Read) (s : S) (ch : Channel) → P s
    → Q (read_loop step input s ch).0
read_loop_inv P Q step keep q [] s ch h = unfold read_loop in q
read_loop_inv P Q step keep q (nothing ∷ rest) s ch h =
    subst (λ (p : Outcome × Channel). Q p.0) (sym (read_loop_skip step rest s ch))
      (read_loop_inv P Q step keep q rest s ch h)
read_loop_inv P Q step keep q (byte c ∷ rest) s ch h =
    Keeps-loop P Q step rest ch (step s c) (read_loop_inv P Q step keep q rest) (keep s c h) c s
      refl
