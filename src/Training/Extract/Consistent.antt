-- ===== src/Training/Extract/Consistent.antt =====
-- The phrase pairs that `extract` finds agree with the alignment.
use moses.Base.{
  ℕ, zero, suc, ◌+◌, ◌-◌, ◌≤◌, ◌<◌, min, ◌≡◌, ◌⊎◌, inl, inr, false, ◌&&◌, [], arith, ltb, leb,
  Bool-cases, length, get_or, if_cases,
}
use moses.Base.StdSet.{All, All-append, All-map, All-mem}
use moses.Training.Extract.{
  SentenceAlignment, PhrasePair, retreat, used_outside, project, extract_span, end_e_rounds,
  start_e_rounds, extract,
}
use moses.Training.Extract.Counts.{
  IsAlignment, occurrences, within_span-le-total, within_span, occurrences-le-within_span,
}
use moses.Training.Extract.Project.{IsNoted, project_rounds-IsNoted}
use mathlib.Core.List.{Memᴰ}
use moses.Training.Extract.Spans.{Extends, retreat-All, used_outside-false}

-- A phrase pair inside the sentences, with phrases of bounded length, that has an alignment point
-- and whose words are aligned to words of the pair only.
pub record IsConsistent (max_phrase_length : ℕ) (s : SentenceAlignment) (r : PhrasePair)
    : Type 0 where
  pub ordered_e : r.start_e ≤ r.end_e
  pub within_e : r.end_e < length s.english
  pub short_e : r.end_e < r.start_e + max_phrase_length
  pub ordered_f : r.start_f ≤ r.end_f
  pub within_f : r.end_f < length s.foreign
  pub short_f : r.end_f < r.start_f + max_phrase_length
  pub to_f :
      (e f : ℕ)
      → r.start_e ≤ e
      → e ≤ r.end_e
      → 0 < occurrences f (get_or s.aligned_to_e e [])
      → (r.start_f ≤ f) × (f ≤ r.end_f)
  pub to_e :
      (e f : ℕ)
      → r.start_f ≤ f
      → f ≤ r.end_f
      → 0 < occurrences f (get_or s.aligned_to_e e [])
      → (r.start_e ≤ e) × (e ≤ r.end_e)

module _ (max_phrase_length : ℕ) (s : SentenceAlignment) (v : IsAlignment s) where
  abbrev Consistent : PhrasePair → Type 0
  Consistent = IsConsistent max_phrase_length s

  project-IsNoted :
      (start_e end_e : ℕ)
      → IsNoted
          (record { min_f = 9999; after_f = 0; used_f = s.aligned_count_f })
          (project max_phrase_length s start_e end_e)
          (λ f. within_span f s.aligned_to_e (end_e + 1 - start_e) start_e)
  unfolding project
  project-IsNoted start_e end_e =
      project_rounds-IsNoted max_phrase_length s (end_e + 1 - start_e) start_e _
        (λ f i o. omega (arith, v.counts, v.inside f i o))

  -- A foreign word between minF and maxF whose usedF is 0 has no point outside the English phrase.
  no_point_outside :
      (start_e end_e e f : ℕ)
      → f < length s.foreign
      → get_or (project max_phrase_length s start_e end_e).used_f f 0 ≡ 0
      → 0 < occurrences f (get_or s.aligned_to_e e [])
      → (start_e ≤ e) × (e ≤ end_e)
  no_point_outside start_e end_e e f l unused o =
      let q = project-IsNoted start_e end_e in
      let n = end_e + 1 - start_e in
      elim (Bool-cases (leb start_e e && ltb e (start_e + n))) [
        | inl inner ↦ (ground arith, ground arith)
        | inr outer ↦ absurd (
            let side : (e < start_e) ⊎ (start_e + n ≤ e) = ground arith in
            omega (
              arith,
              q.used f,
              v.counted f l,
              within_span-le-total f s.aligned_to_e n start_e e side,
            ))
      ]

  -- An unaligned foreign word has no point.
  unaligned_lem :
      (e f : ℕ)
      → f < length s.foreign
      → get_or s.aligned_count_f f 0 ≡ 0
      → occurrences f (get_or s.aligned_to_e e []) ≡ 0
  unaligned_lem e f l free =
      omega (arith, v.counted f l, within_span-le-total f s.aligned_to_e 0 0 e (inr (omega arith)))

  Extends-Consistent :
      (start_e end_e : ℕ) (r : PhrasePair)
      → start_e ≤ end_e
      → end_e < length s.english
      → end_e < start_e + max_phrase_length
      → 0 < (project max_phrase_length s start_e end_e).after_f
      → used_outside max_phrase_length s
          (project max_phrase_length s start_e end_e).used_f
          ((project max_phrase_length s start_e end_e).after_f
            - (project max_phrase_length s start_e end_e).min_f)
          (project max_phrase_length s start_e end_e).min_f
        ≡ false
      → Extends max_phrase_length s start_e end_e
          (project max_phrase_length s start_e end_e).min_f
          ((project max_phrase_length s start_e end_e).after_f - 1)
          r
      → Consistent r
  Extends-Consistent start_e end_e r le lt short found clear x =
      let p = project max_phrase_length s start_e end_e in
      let q = project-IsNoted start_e end_e in
      let a = x.same_start in
      let b = x.same_end in
      let order : p.min_f < p.after_f = elim q.some_seen [
        | inl old ↦ absurd (omega arith)
        | inr (inl unset) ↦ absurd (omega arith)
        | inr (inr (f, o)) ↦ omega (arith, q.spans f o)
      ] in
      record {
        ordered_e = omega arith;
        within_e = omega arith;
        short_e = omega arith;
        ordered_f = omega (arith, x.before, x.behind);
        within_f = x.within;
        short_f = x.short;
        to_f = λ e f l u o.
            let count =
              occurrences-le-within_span f s.aligned_to_e (end_e + 1 - start_e) start_e e
                (omega arith) (omega arith) in
            omega (arith, q.spans f (omega arith), x.before, x.behind);
        to_e = λ e f l u o.
            let inside : f < length s.foreign = omega (arith, x.within) in
            elim (Bool-cases (ltb f p.min_f)) [
              | inl low ↦
                  absurd
                    (omega (arith, unaligned_lem e f inside (x.free_before f l (ground arith))))
              | inr from ↦ elim (Bool-cases (ltb f p.after_f)) [
                | inl upto ↦
                    let unused =
                      used_outside-false max_phrase_length s p.used_f (p.after_f - p.min_f) p.min_f
                        clear f (ground arith) (ground arith) in
                    omega (arith, no_point_outside start_e end_e e f inside unused o)
                | inr high ↦ absurd (
                    omega (
                      arith,
                      unaligned_lem e f inside (x.free_behind f (ground arith) (omega arith)),
                    ))
              ]
            ];
      }

  extract_span-All :
      (start_e end_e : ℕ)
      → start_e ≤ end_e
      → end_e < length s.english
      → end_e < start_e + max_phrase_length
      → All Consistent (extract_span max_phrase_length s start_e end_e)
  unfolding extract_span
  extract_span-All start_e end_e le lt short =
      let p = project max_phrase_length s start_e end_e in
      let q = project-IsNoted start_e end_e in
      if_cases (All Consistent) _
        (retreat max_phrase_length s start_e end_e p.min_f (p.after_f - 1) p.min_f) []
        (λ ok.
          let exts =
            retreat-All max_phrase_length s start_e end_e p.min_f (p.after_f - 1) p.min_f
              (omega arith) (λ f l u. absurd (omega arith)) in
          All-map _ Consistent
            (retreat max_phrase_length s start_e end_e p.min_f (p.after_f - 1) p.min_f)
            (λ r x. Extends-Consistent start_e end_e r le lt short (ground arith) (ground arith) x)
            exts)
        (λ _. tt)

  end_e_rounds-All :
      (start_e n end_e : ℕ)
      → start_e ≤ end_e
      → (0 < n → end_e + n ≤ length s.english)
      → (0 < n → end_e + n ≤ start_e + max_phrase_length)
      → All Consistent (end_e_rounds max_phrase_length s start_e n end_e)
  unfolding end_e_rounds
  end_e_rounds-All start_e zero end_e l u m = tt
  end_e_rounds-All start_e (suc n) end_e l u m =
      All-append Consistent (extract_span max_phrase_length s start_e end_e)
        (end_e_rounds max_phrase_length s start_e n (end_e + 1))
        (extract_span-All start_e end_e l (omega (arith, u)) (omega (arith, m)))
        (end_e_rounds-All start_e n (end_e + 1) (omega arith) (λ some. omega (arith, u))
          (λ some. omega (arith, m)))

  start_e_rounds-All :
      (n start_e : ℕ) → All Consistent (start_e_rounds max_phrase_length s n start_e)
  unfolding start_e_rounds
  start_e_rounds-All zero start_e = tt
  start_e_rounds-All (suc n) start_e =
      let ends = min max_phrase_length (length s.english - start_e) in
      All-append Consistent (end_e_rounds max_phrase_length s start_e ends start_e)
        (start_e_rounds max_phrase_length s n (start_e + 1))
        (end_e_rounds-All start_e ends start_e (omega arith) (λ some. omega arith)
          (λ some. omega arith))
        (start_e_rounds-All n (start_e + 1))

  -- Every phrase pair that is extracted from an alignment as create builds it lies in the
  -- sentences, has phrases of at most the given length, and agrees with the alignment: no word of
  -- one of its phrases is aligned to a word outside the other.
  pub extract-IsConsistent :
      (r : PhrasePair) → Memᴰ r (extract max_phrase_length s) → IsConsistent max_phrase_length s r
  unfolding extract
  extract-IsConsistent r m =
      All-mem Consistent (extract max_phrase_length s) r (start_e_rounds-All (length s.english) 0) m
