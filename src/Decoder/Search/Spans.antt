-- ===== src/Decoder/Search/Spans.antt =====
-- Every span that a hypothesis is expanded by lies in the sentence, is short enough, has options,
-- overlaps nothing and passes the reordering check.
use moses.Base.{
  ℕ, zero, suc, ◌+◌, ◌-◌, ◌≤◌, ◌<◌, ◌≡◌, refl, sym, inl, inr, Bool, true, false, List, ◌∷◌, ◌++◌,
  arith, Bool-cases, if_true, if_false, ℤ, pos, negsuc,
}
use moses.Coverage.Range.{WordsRange}
use moses.Coverage.Bitmap.{WordsBitmap, overlap, get_first_gap_pos}
use moses.Reordering.Constraint.{ReorderingConstraint, check}
use moses.Decoder.Search.{
  InputType, span, max_size, end_rounds, start_rounds, start_ok, basic_checks, end_ok,
  process_one_hypothesis, check, to_size,
}
use mathlib.Core.Path.{subst}
use moses.Base.StdSet.{All, All-append, All-map, All-mem}
use mathlib.Core.List.{Memᴰ}

module _ (input : InputType) (md : ℤ) (max_phrase_length : ℕ) (rc : ReorderingConstraint)
    (has_options : WordsRange → Bool) (b : WordsBitmap) where
  -- What holds of a listed span, for the tests `start` and `ok` of the two loops.
  record Listed (start : ℕ → Bool) (ok : ℕ → ℕ → Bool) (first : ℕ) (r : WordsRange) : Type 0 where
    from : first ≤ r.start_pos
    ordered : r.start_pos ≤ r.end_pos
    within : r.end_pos < input.size
    short : r.end_pos < r.start_pos + max_phrase_length
    start_passes : start r.start_pos ≡ true
    passes : ok r.start_pos r.end_pos ≡ true

  abbrev listed_ends : (ℕ → ℕ → Bool) → ℕ → ℕ → ℕ → List WordsRange
  listed_ends = end_rounds input md max_phrase_length rc has_options b

  end_rounds-All :
      (ok : ℕ → ℕ → Bool) (n s e lo hi : ℕ)
      → lo ≤ e
      → e + n ≤ hi
      → All
          (λ r. (r.start_pos ≡ s) × (lo ≤ r.end_pos) × (r.end_pos < hi) × (ok s r.end_pos ≡ true))
          (listed_ends ok n s e)
  unfolding end_rounds
  end_rounds-All ok zero s e lo hi l u = tt
  end_rounds-All ok (suc n) s e lo hi l u =
      let P = λ (r : WordsRange).
        (r.start_pos ≡ s) × (lo ≤ r.end_pos) × (r.end_pos < hi) × (ok s r.end_pos ≡ true) in
      let rest = end_rounds-All ok n s (e + 1) lo hi (omega arith) (omega arith) in
      elim (Bool-cases (ok s e)) [
        | inl t ↦
            subst (All P)
              (sym (
                if_true (ok s e)
                  (span input md max_phrase_length rc has_options b s e
                    ∷ listed_ends ok n s (e + 1))
                  (listed_ends ok n s (e + 1)) t))
              ((refl, omega arith, omega arith, t), rest)
        | inr f ↦
            subst (All P)
              (sym (
                if_false (ok s e)
                  (span input md max_phrase_length rc has_options b s e
                    ∷ listed_ends ok n s (e + 1))
                  (listed_ends ok n s (e + 1)) f))
              rest
      ]

  start_rounds-All :
      (start : ℕ → Bool) (ok : ℕ → ℕ → Bool) (n s first : ℕ)
      → first ≤ s
      → (0 < n → s + n ≤ input.size)
      → All
          (Listed start ok first)
          (start_rounds input md max_phrase_length rc has_options b start ok n s)
  unfolding start_rounds
  start_rounds-All start ok zero s first l u = tt
  start_rounds-All start ok (suc n) s first l u =
      let later = start_rounds-All start ok n (s + 1) first (omega arith) (λ _. omega arith) in
      let ends = max_size input md max_phrase_length rc has_options b s in
      let here = end_rounds-All ok ends s s s (s + ends) (omega arith) (omega arith) in
      let rest = start_rounds input md max_phrase_length rc has_options b start ok n (s + 1) in
      elim (Bool-cases (start s)) [
        | inl t ↦
            subst (All (Listed start ok first))
              (sym (if_true (start s) (listed_ends ok ends s s ++ rest) rest t))
              (All-append (Listed start ok first) (listed_ends ok ends s s) rest
                (All-map _ (Listed start ok first) (listed_ends ok ends s s)
                  (λ r (p, q, v, o). record {
                    from = omega arith;
                    ordered = omega arith;
                    within = ground arith;
                    short = ground arith;
                    start_passes = rw p t;
                    passes = rw p o;
                  })
                  here)
                later)
        | inr f ↦
            subst (All (Listed start ok first))
              (sym (if_false (start s) (listed_ends ok ends s s ++ rest) rest f)) later
      ]

-- What every expansion of a hypothesis with coverage `b` satisfies.
pub record Expandable (input : InputType) (md : ℤ) (max_phrase_length : ℕ)
    (rc : ReorderingConstraint) (has_options : WordsRange → Bool) (b : WordsBitmap) (r : WordsRange)
    : Type 0 where
  pub ordered : r.start_pos ≤ r.end_pos
  pub within : r.end_pos < input.size
  pub short : r.end_pos < r.start_pos + max_phrase_length
  pub options : has_options r ≡ true
  pub free : overlap b r ≡ false
  pub checked : check rc (to_size md) b r.start_pos r.end_pos ≡ true

-- With a distortion limit `d`, the span also passed the tests of both loops.
pub record Limited (input : InputType) (d max_phrase_length : ℕ) (rc : ReorderingConstraint)
    (has_options : WordsRange → Bool) (b : WordsBitmap) (last r : WordsRange) : Type 0 where
  pub start_passes :
      start_ok input (pos d) max_phrase_length rc has_options b d last r.start_pos ≡ true
  pub passes :
      end_ok input (pos d) max_phrase_length rc has_options b d r.start_pos r.end_pos ≡ true

module _ (input : InputType) (max_phrase_length : ℕ) (rc : ReorderingConstraint)
    (has_options : WordsRange → Bool) (b : WordsBitmap) (last : WordsRange) where
  basic_checks-inv :
      (md : ℤ) (r : WordsRange)
      → basic_checks input md max_phrase_length rc has_options b r.start_pos r.end_pos ≡ true
      → (has_options r ≡ true)
        × (overlap b r ≡ false)
        × (check rc (to_size md) b r.start_pos r.end_pos ≡ true)
  unfolding basic_checks
  basic_checks-inv md r h = ground arith

  end_ok-basic :
      (md : ℤ) (d s e : ℕ)
      → end_ok input md max_phrase_length rc has_options b d s e ≡ true
      → basic_checks input md max_phrase_length rc has_options b s e ≡ true
  unfolding end_ok
  end_ok-basic md d s e h =
      elim (Bool-cases (basic_checks input md max_phrase_length rc has_options b s e)) [
        | inl t ↦ t
        | inr f ↦ absurd (ground arith)
      ]

  limited :
      (d : ℕ) (r : WordsRange)
      → Memᴰ r (process_one_hypothesis input (pos d) max_phrase_length rc has_options b last)
      → Listed input
          (pos d)
          max_phrase_length
          rc
          has_options
          b
          (start_ok input (pos d) max_phrase_length rc has_options b d last)
          (end_ok input (pos d) max_phrase_length rc has_options b d)
          (get_first_gap_pos b)
          r
  unfolding process_one_hypothesis
  limited d r m =
      All-mem _ _ r
        (start_rounds-All input (pos d) max_phrase_length rc has_options b
          (start_ok input (pos d) max_phrase_length rc has_options b d last)
          (end_ok input (pos d) max_phrase_length rc has_options b d)
          (input.size - get_first_gap_pos b) (get_first_gap_pos b) (get_first_gap_pos b)
          (omega arith) (λ h. omega arith))
        m

  unlimited :
      (k : ℕ) (r : WordsRange)
      → Memᴰ r (process_one_hypothesis input (negsuc k) max_phrase_length rc has_options b last)
      → Listed input
          (negsuc k)
          max_phrase_length
          rc
          has_options
          b
          (λ s. true)
          (basic_checks input (negsuc k) max_phrase_length rc has_options b)
          (get_first_gap_pos b)
          r
  unfolding process_one_hypothesis
  unlimited k r m =
      All-mem _ _ r
        (start_rounds-All input (negsuc k) max_phrase_length rc has_options b (λ s. true)
          (basic_checks input (negsuc k) max_phrase_length rc has_options b)
          (input.size - get_first_gap_pos b) (get_first_gap_pos b) (get_first_gap_pos b)
          (omega arith) (λ h. omega arith))
        m

  -- Every span by which a hypothesis is expanded, with or without a distortion limit, lies in the
  -- sentence, is at most as long as a phrase may be, has translation options, overlaps no
  -- translated word and passes the reordering check.
  pub process_one_hypothesis-Expandable :
      (md : ℤ) (r : WordsRange)
      → Memᴰ r (process_one_hypothesis input md max_phrase_length rc has_options b last)
      → Expandable input md max_phrase_length rc has_options b r
  process_one_hypothesis-Expandable (pos d) r m =
      let l = limited d r m in
      let (o, f, c) =
        basic_checks-inv (pos d) r (end_ok-basic (pos d) d r.start_pos r.end_pos l.passes) in
      record {
        ordered = l.ordered;
        within = l.within;
        short = l.short;
        options = o;
        free = f;
        checked = c;
      }
  process_one_hypothesis-Expandable (negsuc k) r m =
      let l = unlimited k r m in
      let (o, f, c) = basic_checks-inv (negsuc k) r l.passes in
      record {
        ordered = l.ordered;
        within = l.within;
        short = l.short;
        options = o;
        free = f;
        checked = c;
      }

  pub process_one_hypothesis-Limited :
      (d : ℕ) (r : WordsRange)
      → Memᴰ r (process_one_hypothesis input (pos d) max_phrase_length rc has_options b last)
      → Limited input d max_phrase_length rc has_options b last r
  process_one_hypothesis-Limited d r m =
      let l = limited d r m in record { start_passes = l.start_passes; passes = l.passes }
