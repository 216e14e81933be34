-- ===== src/Tl1/Sections/RoundTrip.antt =====
-- The data of a gateway as a local part and sections, and `indexSections` on it.
use rconfig_sim.Base.{
  ◌==◌, length, length-append, All, Bytes, equal, equal_iff, Lacks, ℕ, ◌+◌, ◌-◌, ◌≡◌, refl, sym, ap,
  ◌∙◌, ◌≢◌, true, false, some, List, [], ◌∷◌, ◌++◌, map, append-nil, append_assoc, arith,
}
use rconfig_sim.Tl1.Sections.{
  index_byte, bound_at, bounds_from, slice, sections_of, index_sections, Bound, Sections,
  section_end, sections_at,
}
use rconfig_sim.Tl1.Sections.Lines.{
  take_append, drop_append, Lacks-append, slice_middle, EndsLine, IsClean, at_end_line,
  has_prefix_self, index_byte_line, bounds_from-text, bounds_from-line,
}
use rconfig_sim.Text.{to_upper, trim_space}

module _ (m : ℕ) (ms : Bytes) (lacks : Lacks b'\n' (m ∷ ms)) where
  abbrev marker : Bytes
  marker = m ∷ ms

  -- The sections as they are written: a marker line with the TID, then the body.
  abbrev pub render : List (Bytes × Bytes) → Bytes
  render [] = []
  render ((tid, body) ∷ more) = marker ++ (tid ++ (b'\n' ∷ (body ++ render more)))

  abbrev key_of : Bytes → Bytes
  key_of tid = to_upper (trim_space tid)

  abbrev body_offset : ℕ → Bytes → ℕ
  body_offset i tid = i + (length marker + length tid) + 1

  abbrev bounds_of : ℕ → List (Bytes × Bytes) → List Bound
  bounds_of i [] = []
  bounds_of i ((tid, body) ∷ more) =
      record { tid = key_of tid; body_start = body_offset i tid; line = i }
      ∷ bounds_of (body_offset i tid + length body) more

  -- A section that can be written: its TID is on one line and not blank, its body consists of whole
  -- lines, none of which begins with the marker.
  abbrev pub IsSection : Bytes × Bytes → Type 0
  IsSection (tid, body) =
      Lacks b'\n' tid × (key_of tid ≢ []) × EndsLine body × IsClean marker true body

  bound_at-line :
      (n i : ℕ) (tid rest : Bytes)
      → Lacks b'\n' tid
      → bound_at marker n i (marker ++ (tid ++ (b'\n' ∷ rest)))
        ≡ record { tid = key_of tid; body_start = body_offset i tid; line = i }
  unfolding bound_at
  bound_at-line n i tid rest l =
      let whole = index_byte_line (marker ++ tid) rest (Lacks-append b'\n' marker tid lacks l) in
      let found =
        ap (λ (x : Bytes). index_byte x b'\n') (sym (append_assoc marker tid (b'\n' ∷ rest)))
        ∙ (whole ∙ ap some (length-append marker tid)) in
      let k : length marker + length tid - length marker ≡ length tid = omega arith in
      rw
        (found, bound_at, drop_append ms (tid ++ (b'\n' ∷ rest)), k, take_append tid (b'\n' ∷ rest))
        refl

  bounds_from-section :
      (n i : ℕ) (tid rest : Bytes)
      → Lacks b'\n' tid
      → bounds_from marker n true i (marker ++ (tid ++ (b'\n' ∷ rest)))
        ≡ record { tid = key_of tid; body_start = body_offset i tid; line = i }
          ∷ bounds_from marker n true (body_offset i tid) rest
  unfolding bounds_from
  bounds_from-section n i tid rest l =
      let text = tid ++ (b'\n' ∷ rest) in
      let bound : Bound = record { tid = key_of tid; body_start = body_offset i tid; line = i } in
      let first : (m == b'\n') ≡ false = ground arith in
      let o : i + 1 + length (ms ++ tid) + 1 ≡ body_offset i tid =
        omega (arith, length-append ms tid) in
      let after =
        ap (λ (x : Bytes). bounds_from marker n false (i + 1) x)
          (sym (append_assoc ms tid (b'\n' ∷ rest)))
        ∙ (bounds_from-line marker n lacks (i + 1) (ms ++ tid) rest
              (Lacks-append b'\n' ms tid lacks.1 l)
            ∙ ap (λ (j : ℕ). bounds_from marker n true j rest) o) in
      rw (has_prefix_self marker text, bound_at-line n i tid rest l, first) (ap (◌∷◌ bound) after)

  bounds_from-render :
      (n i : ℕ) (secs : List (Bytes × Bytes))
      → All IsSection secs
      → bounds_from marker n true i (render secs) ≡ bounds_of i secs
  bounds_from-render n i [] h = unfold bounds_from in refl
  bounds_from-render n i ((tid, body) ∷ more) ((l, k, e, c), h) =
      let j = body_offset i tid in
      let text = bounds_from-text marker n lacks true j body (render more) e c in
      let flag = at_end_line body e in
      bounds_from-section n i tid (body ++ render more) l
      ∙ ap (◌∷◌ (record { tid = key_of tid; body_start = j; line = i }))
          ((rw flag at text) ∙ bounds_from-render n (j + length body) more h)

  -- The sections under the names that they are looked up by.
  abbrev pub named : List (Bytes × Bytes) → List (Bytes × Bytes)
  named secs = map (λ (s : Bytes × Bytes). (key_of s.0, s.1)) secs

  section_end-bounds_of :
      (i n : ℕ) (more : List (Bytes × Bytes))
      → n ≡ i + length (render more)
      → section_end n (bounds_of i more) ≡ i
  section_end-bounds_of i n [] e = omega arith
  section_end-bounds_of i n (s ∷ more) e = refl

  sections_step :
      (data_bytes pre : Bytes) (i : ℕ) (tid body : Bytes) (more : List (Bytes × Bytes))
      → key_of tid ≢ []
      → data_bytes ≡ pre ++ (body ++ render more)
      → length pre ≡ body_offset i tid
      → sections_of data_bytes (bounds_of (body_offset i tid + length body) more) ≡ named more
      → sections_of data_bytes (bounds_of i ((tid, body) ∷ more)) ≡ named ((tid, body) ∷ more)
  unfolding sections_of
  sections_step data_bytes pre i tid body more k q p h =
      let j = body_offset i tid + length body in
      let t : equal (key_of tid) [] ≡ false = ground (arith, equal_iff (key_of tid) []) in
      let n : length data_bytes ≡ j + length (render more) = omega (
        arith,
        ap (λ (x : Bytes). length x) q,
        length-append pre (body ++ render more),
        length-append body (render more),
      ) in
      let end = section_end-bounds_of j (length data_bytes) more n in
      let part = slice_middle pre body (render more) (body_offset i tid) j p refl in
      let cut : slice data_bytes (body_offset i tid) j ≡ body =
        ap (λ (x : Bytes). slice x (body_offset i tid) j) q ∙ part in
      rw (t, h, end, cut) refl

  sections_of-bounds_of :
      (pre : Bytes) (i : ℕ) (secs : List (Bytes × Bytes))
      → length pre ≡ i
      → All IsSection secs
      → sections_of (pre ++ render secs) (bounds_of i secs) ≡ named secs
  sections_of-bounds_of pre i [] p h = unfold sections_of in refl
  sections_of-bounds_of pre i ((tid, body) ∷ more) p ((l, k, e, c), h) =
      let header = marker ++ (tid ++ (b'\n' ∷ [])) in
      let before = pre ++ header in
      let q : pre ++ render ((tid, body) ∷ more) ≡ before ++ (body ++ render more) =
        simp append_assoc in
      let r : pre ++ render ((tid, body) ∷ more) ≡ (before ++ body) ++ render more =
        q ∙ sym (append_assoc before body (render more)) in
      let n : length before ≡ body_offset i tid = omega (
        arith,
        length-append pre header,
        length-append marker (tid ++ (b'\n' ∷ [])),
        length-append tid (b'\n' ∷ []),
      ) in
      let later =
        sections_of-bounds_of (before ++ body) (body_offset i tid + length body) more
          (omega (arith, length-append before body)) h in
      sections_step (pre ++ render ((tid, body) ∷ more)) before i tid body more k q n (
        ap (λ (x : Bytes). sections_of x (bounds_of (body_offset i tid + length body) more)) r
        ∙ later)

  abbrev indexed : Bytes → List (Bytes × Bytes) → Sections
  indexed local secs = record {
    local_eqpt = local;
    remote_eqpt = named secs;
    order = map (λ (s : Bytes × Bytes). s.0) (named secs);
  }

  sections_at-bounds_of :
      (local : Bytes) (secs : List (Bytes × Bytes))
      → All IsSection secs
      → sections_at (local ++ render secs) (bounds_of (length local) secs) ≡ indexed local secs
  unfolding sections_at
  sections_at-bounds_of local [] h = rw (append-nil local) refl
  sections_at-bounds_of local (s ∷ more) h =
      let a = sections_of-bounds_of local (length local) (s ∷ more) refl h in
      let b = take_append local (render (s ∷ more)) in rw (a, b) refl

  -- Data that is written as a local part and sections is indexed back into these: the local part, the
  -- sections in order under their TIDs in upper case and without space around, and the order. The
  -- marker is not empty and on one line; the TIDs are on one line and not blank; the local part and the
  -- bodies consist of whole lines that do not begin with the marker.
  pub index_sections-render :
      (local : Bytes) (secs : List (Bytes × Bytes))
      → EndsLine local
      → IsClean marker true local
      → All IsSection secs
      → index_sections (local ++ render secs) marker ≡ record {
        local_eqpt = local;
        remote_eqpt = named secs;
        order = map (λ (s : Bytes × Bytes). s.0) (named secs);
      }
  unfolding index_sections
  index_sections-render local secs e c h =
      let data_bytes = local ++ render secs in
      let n = length data_bytes in
      let text = bounds_from-text marker n lacks true 0 local (render secs) e c in
      let flag = at_end_line local e in
      let z : 0 + length local ≡ length local = omega arith in
      let all = (rw (flag, z) at text) ∙ bounds_from-render n (length local) secs h in
      ap (sections_at data_bytes) all ∙ sections_at-bounds_of local secs h
