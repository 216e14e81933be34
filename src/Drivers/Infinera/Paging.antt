-- ===== src/Drivers/Infinera/Paging.antt =====
-- RTRV-TIDMAP of the Infinera driver: the pages that `tidmapPages` cuts the map into.
use Prim.Native.Nat.{min}
use rconfig_sim.Base.{
  ltb, ◌==◌, Bool-cases, length, take, drop, take-append-drop, length-take, length-drop, take_all,
  Bytes, codes, ℕ, zero, suc, ◌+◌, ◌-◌, ◌≤◌, ◌<◌, ◌≡◌, refl, inl, inr, true, List, [], ◌∷◌, ◌++◌,
  arith, ltb_cases,
}
use rconfig_sim.Drivers.Infinera.{infinera_prompt, tid_records, tidmap_pages, tidmap_loop}
use rconfig_sim.Drivers.Node.{Session}
use rconfig_sim.Tl1.Block.{block}

module _ (stamp : ℕ → Bytes) (s : Session) (ctag : Bytes) where
  -- The answer for these TIDs, of which the n-th block begins: pages of ten under RTRV, each
  -- followed by a prompt, and a last page that is not empty under COMPLD.
  pub data Paged : ℕ → List Bytes → Bytes → Type 0 where
    last :
        (n : ℕ) (page : List Bytes)
        → 1 ≤ length page
        → length page ≤ 10
        → Paged n page (block (stamp n) s.sid ctag (codes "COMPLD") (tid_records page))
    more :
        (n : ℕ) (page rest : List Bytes) (out : Bytes)
        → length page ≡ 10
        → Paged (n + 1) rest out
        → Paged n (page ++ rest) (
            block (stamp n) s.sid ctag (codes "RTRV") (tid_records page)
            ++ (infinera_prompt ++ out))

  tidmap_loop_last :
      (fuel n start : ℕ)
      → start < length s.order
      → length s.order ≤ start + 10
      → tidmap_loop stamp s ctag (suc fuel) n start
        ≡ block (stamp n) s.sid ctag (codes "COMPLD") (tid_records (drop start s.order))
  unfolding tidmap_loop
  tidmap_loop_last fuel n start h f =
      let m : min (start + 10) (length s.order) ≡ length s.order = omega arith in
      let t : ltb start (length s.order) ≡ true = ground arith in
      let d = length-drop start s.order in
      rw (m, t, take_all (length s.order - start) (drop start s.order) (omega arith)) (ground arith)

  tidmap_loop_more :
      (fuel n start : ℕ)
      → start + 10 < length s.order
      → tidmap_loop stamp s ctag (suc fuel) n start
        ≡ block (stamp n) s.sid ctag (codes "RTRV") (tid_records (take 10 (drop start s.order)))
          ++ (infinera_prompt ++ tidmap_loop stamp s ctag fuel (n + 1) (start + 10))
  unfolding tidmap_loop
  tidmap_loop_more fuel n start h =
      let m : min (start + 10) (length s.order) ≡ start + 10 = omega arith in
      let t : ltb start (length s.order) ≡ true = ground arith in
      let q : (start + 10) - start ≡ 10 = omega arith in rw (m, t, q) (ground arith)

  drop-add : (n m : ℕ) (xs : List Bytes) → drop m (drop n xs) ≡ drop (n + m) xs
  drop-add zero m xs = let e : 0 + m ≡ m = omega arith in rw e refl
  drop-add (suc n) zero [] = let e : suc n + 0 ≡ suc n = omega arith in rw e refl
  drop-add (suc n) (suc m) [] = let e : suc n + suc m ≡ suc (n + suc m) = omega arith in rw e refl
  drop-add (suc n) m (x ∷ xs) =
      let e : suc n + m ≡ suc (n + m) = omega arith in rw e (drop-add n m xs)

  tidmap_loop-Paged :
      (fuel n start : ℕ)
      → start < length s.order
      → length s.order ≤ start + fuel
      → Paged n (drop start s.order) (tidmap_loop stamp s ctag fuel n start)
  unfolding tidmap_loop
  tidmap_loop-Paged zero n start h f = absurd (omega arith)
  tidmap_loop-Paged (suc fuel) n start h f =
      let d = length-drop start s.order in
      elim (ltb_cases (start + 10) (length s.order)) [
        | inl e ↦
            let page = take 10 (drop start s.order) in
            let out = tidmap_loop stamp s ctag fuel (n + 1) (start + 10) in
            let rest : Paged (n + 1) (drop 10 (drop start s.order)) out =
              rw (drop-add start 10 s.order)
                (tidmap_loop-Paged fuel (n + 1) (start + 10) e (omega arith)) in
            let size = length-take 10 (drop start s.order) in
            let whole = more n page (drop 10 (drop start s.order)) out (omega arith) rest in
            rw (tidmap_loop_more fuel n start e)
              (rw (take-append-drop 10 (drop start s.order)) at whole)
        | inr e ↦
            rw (tidmap_loop_last fuel n start h e)
              (last n (drop start s.order) (omega arith) (omega arith))
      ]

  -- The answer for these TIDs: an empty block under COMPLD where there are none, or else pages.
  abbrev pub IsTidMap : List Bytes → Bytes → Type 0
  IsTidMap [] out = out ≡ block (stamp 0) s.sid ctag (codes "COMPLD") []
  IsTidMap (tid ∷ tids) out = Paged 0 (tid ∷ tids) out

  map_of :
      (tids : List Bytes) (out : Bytes) → 1 ≤ length tids → Paged 0 tids out → IsTidMap tids out
  map_of [] out h p = absurd (omega arith)
  map_of (tid ∷ tids) out h p = p

  no_tids : (tids : List Bytes) → length tids ≡ 0 → tids ≡ []
  no_tids [] h = refl
  no_tids (tid ∷ tids) h = absurd (omega arith)

  -- A node with no neighbours answers RTRV-TIDMAP with one empty block under COMPLD. Any other answers
  -- with the whole map in order: pages of ten records, each followed by a prompt, then a last page of
  -- one to ten records under COMPLD; the n-th block has the n-th time stamp.
  pub tidmap_pages-IsTidMap : IsTidMap s.order (tidmap_pages stamp s ctag)
  unfolding tidmap_pages
  tidmap_pages-IsTidMap = elim (Bool-cases (length s.order == 0)) [
    | inl t ↦ let e : s.order ≡ [] = no_tids s.order (ground arith) in rw (t, e) refl
    | inr t ↦ rw t (
        map_of s.order _ (ground arith)
          (tidmap_loop-Paged (length s.order) 0 0 (ground arith) (omega arith)))
  ]
