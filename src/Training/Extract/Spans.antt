-- ===== src/Training/Extract/Spans.antt =====
-- The loops over startF and endF: foreign phrases that grow over unaligned words.
use moses.Base.{
  ℕ, zero, suc, ◌+◌, ◌-◌, ◌≤◌, ◌<◌, ◌≡◌, refl, inl, inr, false, ◌&&◌, ◌||◌, List, [], arith, ltb,
  ◌==◌, Bool-cases, length, get_or, if_cases,
}
use moses.Base.StdSet.{All, All-append}
use moses.Training.Extract.{
  SentenceAlignment, PhrasePair, advance, retreat, used_outside, unaligned, may_start,
}

-- No foreign word from `lo` on and before `hi` is aligned.
abbrev pub FreeF : SentenceAlignment → ℕ → ℕ → Type 0
FreeF s lo hi = (f : ℕ) → lo ≤ f → f < hi → get_or s.aligned_count_f f 0 ≡ 0

-- A foreign phrase that extends the words from `min_f` to `max_f` over unaligned ones.
pub record Extends (max_phrase_length : ℕ) (s : SentenceAlignment) (start_e end_e min_f max_f : ℕ)
    (r : PhrasePair) : Type 0 where
  pub same_start : r.start_e ≡ start_e
  pub same_end : r.end_e ≡ end_e
  pub before : r.start_f ≤ min_f
  pub behind : max_f ≤ r.end_f
  pub within : r.end_f < length s.foreign
  pub short : r.end_f < r.start_f + max_phrase_length
  pub free_before : FreeF s r.start_f min_f
  pub free_behind : FreeF s (max_f + 1) (r.end_f + 1)

module _ (max_phrase_length : ℕ) (s : SentenceAlignment) (start_e end_e min_f max_f : ℕ) where
  abbrev pub Ext : PhrasePair → Type 0
  Ext = Extends max_phrase_length s start_e end_e min_f max_f

  advance-All :
      (start_f n end_f : ℕ)
      → start_f ≤ min_f
      → FreeF s start_f min_f
      → max_f ≤ end_f
      → FreeF s (max_f + 1) end_f
      → (0 < n → end_f + n ≤ length s.foreign)
      → All Ext (advance max_phrase_length s start_e end_e start_f max_f n end_f)
  unfolding advance
  advance-All start_f zero end_f l free m free' u = tt
  advance-All start_f (suc n) end_f l free m free' u =
      if_cases (All Ext)
        (ltb end_f (start_f + max_phrase_length)
          && (end_f == max_f || unaligned max_phrase_length s end_f))
        _ []
        (λ ok.
          let free_here : FreeF s (max_f + 1) (end_f + 1) = λ f p q. ground (arith, free' f) in
          (
            record {
              same_start = refl;
              same_end = refl;
              before = l;
              behind = m;
              within = omega (arith, u);
              short = ground arith;
              free_before = free;
              free_behind = free_here;
            },
            advance-All start_f n (end_f + 1) l free (omega arith) free_here
                (λ _. omega (arith, u)),
          ))
        (λ _. tt)

  pub retreat-All :
      (start_f : ℕ)
      → start_f ≤ min_f
      → FreeF s (start_f + 1) min_f
      → All Ext (retreat max_phrase_length s start_e end_e min_f max_f start_f)
  unfolding retreat
  retreat-All zero l free =
      if_cases (All Ext) (may_start max_phrase_length s min_f max_f 0) _ []
        (λ ok.
          advance-All 0 (length s.foreign - max_f) max_f l (λ f p q. ground (arith, free f))
            (omega arith) (λ f p q. absurd (omega arith)) (λ some. omega arith))
        (λ _. tt)
  retreat-All (suc start_f) l free =
      if_cases (All Ext) (may_start max_phrase_length s min_f max_f (suc start_f)) _ []
        (λ ok.
          let free_here : FreeF s (suc start_f) min_f = λ f p q. ground (arith, free f) in
          All-append Ext
            (advance max_phrase_length s start_e end_e (suc start_f) max_f
              (length s.foreign - max_f) max_f)
            (retreat max_phrase_length s start_e end_e min_f max_f start_f)
            (advance-All (suc start_f) (length s.foreign - max_f) max_f l free_here (omega arith)
              (λ f p q. absurd (omega arith)) (λ some. omega arith))
            (retreat-All start_f (omega arith) (λ f p q. free_here f (omega arith) q)))
        (λ _. tt)

pub used_outside-false :
    (max_phrase_length : ℕ) (s : SentenceAlignment) (used : List ℕ) (n fi : ℕ)
    → used_outside max_phrase_length s used n fi ≡ false
    → (f : ℕ) → fi ≤ f
    → f < fi + n
    → get_or used f 0 ≡ 0
unfolding used_outside
used_outside-false l s used zero fi h f p q = absurd (omega arith)
used_outside-false l s used (suc n) fi h f p q = elim (Bool-cases (f == fi)) [
  | inl here ↦ (let same : f ≡ fi = ground arith in rw same (ground arith))
  | inr later ↦ used_outside-false l s used n (fi + 1) (ground arith) f (ground arith) (omega arith)
]
