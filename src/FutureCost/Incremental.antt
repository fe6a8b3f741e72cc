-- ===== src/FutureCost/Incremental.antt =====
-- The incremental future cost of an extension against the future cost of the extended bitmap.
use moses.Base.{
  ℕ, ◌+◌, ◌-◌, ◌≤◌, ◌<◌, ◌≡◌, refl, sym, ap, ◌∙◌, inl, inr, Bool, true, false, not, ◌&&◌, ◌||◌,
  arith, not_found, leb, ◌==◌, if◌then◌else◌, Bool-cases, length, set, for_range, for_split,
  for_cong, for_keep,
}
use moses.Coverage.Bitmap.{
  WordsBitmap, get_value, overlap, set_values, get_first_gap_pos, get_last_pos,
}
use moses.Coverage.Bitmap.Cover.{FreeAt, length-set_values}
use moses.Coverage.Bitmap.Gaps.{get_last_pos-cases}
use moses.Coverage.Bitmap.Cover.{length-set_values}
use moses.Coverage.Bitmap.{overlap, set_values, get_first_gap_pos, get_last_pos}
use moses.FutureCost.Matrix.{
  no_gap, last_covered, span_body, calc_future_score, calc_future_score_span,
}
use moses.Coverage.Bitmap.Extend.{IsFirstGap, get_value-extended, get_first_gap_pos-IsFirstGap}
use moses.FutureCost.Float.{Floats}
use moses.FutureCost.Matrix.{
  SquareMatrix, GapState, get_score, gap_body, last_covered, no_gap, span_body,
  calc_future_score_span, calc_future_score,
}

module _ {F : Type 0} (fl : Floats F) (m : SquareMatrix fl) (c : WordsBitmap) where
  -- Translated words outside a gap change nothing.
  gap_body_covered :
      (i : ℕ) (st : GapState fl)
      → get_value c i ≡ true
      → st.start_gap ≡ not_found
      → gap_body fl m c i st ≡ st
  unfolding gap_body
  gap_body_covered i st t e = ground arith

  -- Untranslated words inside a gap change nothing.
  gap_body_open :
      (i : ℕ) (st : GapState fl)
      → get_value c i ≡ false
      → st.start_gap < not_found
      → gap_body fl m c i st ≡ st
  unfolding gap_body
  gap_body_open i st f l = ground arith

  -- A translated word leaves no gap open.
  gap_body_closes :
      (i : ℕ) (st : GapState fl)
      → get_value c i ≡ true
      → (gap_body fl m c i st).start_gap ≡ not_found
  unfolding gap_body
  gap_body_closes i st t = ground arith

  gap_body_opens :
      (i : ℕ) (st : GapState fl)
      → get_value c i ≡ false
      → st.start_gap ≡ not_found
      → gap_body fl m c i st ≡ record st { start_gap = i }
  unfolding gap_body
  gap_body_opens i st f e = ground arith

  abbrev close_score : GapState fl → F
  close_score st =
      if not (st.start_gap == not_found)
      then fl.add st.future_score (get_score fl m st.start_gap (length c - 1))
      else st.future_score

  -- From a translated word on after which no word is translated, the rest is one gap or nothing.
  finish :
      (st : GapState fl) (l : ℕ)
      → l < length c
      → length c < not_found
      → FreeAt c (l + 1) (length c)
      → st.start_gap ≡ not_found
      → close_score (for_range (length c - (l + 1)) (l + 1) (gap_body fl m c) st) ≡ (
          if not (l == length c - 1)
          then fl.add st.future_score (get_score fl m (l + 1) (length c - 1))
          else st.future_score)
  finish st l h small free closed = elim (Bool-cases (l == length c - 1)) [
    | inl end ↦
        let nothing : length c - (l + 1) ≡ 0 = ground arith in
        rw (end, nothing) (unfold for_range in ground arith)
    | inr more ↦
        let opened = gap_body_opens (l + 1) st (free (l + 1) (omega arith) (ground arith)) closed in
        let kept =
          for_keep (gap_body fl m c) (length c - (l + 1) - 1) (l + 1 + 1)
            (record st { start_gap = l + 1 })
            (λ i a u.
              gap_body_open i (record st { start_gap = l + 1 })
                (free i (omega arith) (ground arith)) (omega arith)) in
        let all =
          for_split (gap_body fl m c) 1 (length c - (l + 1) - 1) (length c - (l + 1)) (l + 1)
            (l + 1 + 1) st (ground arith) refl in
        let open_end : (l + 1 == not_found) ≡ false = ground arith in
        rw (more, all) (unfold for_range in rw (opened, kept, open_end))
  ]

module _ {F : Type 0} (fl : Floats F) (m : SquareMatrix fl) (b : WordsBitmap) (s e : ℕ)
    (ordered : s ≤ e) (inside : e < length b)
    (free : overlap b (record { start_pos = s; end_pos = e }) ≡ false)
    (small : length b < not_found) where
  abbrev extended : WordsBitmap
  extended = set_values b s e true

  value : (i : ℕ) → get_value extended i ≡ (get_value b i || (leb s i && leb i e))
  value i = get_value-extended b s e i ordered inside

  first_gap : IsFirstGap b s (get_first_gap_pos b)
  first_gap = get_first_gap_pos-IsFirstGap b s e ordered inside free

  record IsLastCovered (l : ℕ) : Type 0 where
    within : l < length b
    beyond : e ≤ l
    covered : get_value extended l ≡ true
    rest : (i : ℕ) → l < i → get_value extended i ≡ false

  last_is : IsLastCovered (last_covered b e)
  last_is = elim (get_last_pos-cases b) [
    | inl (none_yet, empty) ↦
        let at_end : last_covered b e ≡ e = ground arith in
        rw at_end (record {
          within = inside;
          beyond = omega arith;
          covered = ground (arith, value e);
          rest = λ i u. ground (arith, value i, empty i (omega arith));
        })
    | inr (l, set, after) ↦ record {
      within = ground arith;
      beyond = ground arith;
      covered = ground (arith, value e, value (get_last_pos b));
      rest = λ i u. ground (arith, value i, after i (ground arith));
    }
  ]

  abbrev covers_gap : Bool
  covers_gap = s == get_first_gap_pos b

  abbrev start_loop : ℕ
  start_loop = if covers_gap then e + 1 else get_first_gap_pos b + 1

  abbrev entry : GapState fl
  entry = record {
    start_gap = if covers_gap then not_found else get_first_gap_pos b;
    future_score = fl.zero_float;
  }

  filled_prefix :
      (n : ℕ)
      → ((i : ℕ) → i < n → get_value extended i ≡ true)
      → for_range n 0 (gap_body fl m extended) (no_gap fl) ≡ no_gap fl
  filled_prefix n h =
      for_keep (gap_body fl m extended) n 0 (no_gap fl)
        (λ i l u. gap_body_covered fl m extended i (no_gap fl) (h i (omega arith)) refl)

  -- The loop over the whole sentence reaches `start_loop` in the state in which the other starts.
  prefix : for_range start_loop 0 (gap_body fl m extended) (no_gap fl) ≡ entry
  prefix = elim (Bool-cases covers_gap) [
    | inl covers ↦ rw covers (
        filled_prefix (e + 1) (λ i u. ground (arith, value i, first_gap.below, first_gap.filled i)))
    | inr later ↦
        let g = get_first_gap_pos b in
        let two =
          for_split (gap_body fl m extended) g 1 (g + 1) 0 g (no_gap fl) refl (omega arith) in
        let before = filled_prefix g (λ i u. ground (arith, value i, first_gap.filled i u)) in
        let opened =
          gap_body_opens fl m extended g (no_gap fl)
            (ground (arith, value g, first_gap.gap, first_gap.below)) refl in
        rw (later, two, before) (unfold for_range in opened)
  ]

  start_loop-le : start_loop ≤ last_covered b e + 1
  start_loop-le = elim (Bool-cases covers_gap) [
    | inl covers ↦ rw covers (omega (arith, last_is.beyond))
    | inr later ↦ rw later (omega (arith, last_is.beyond, first_gap.below))
  ]

  abbrev reached : GapState fl
  reached = for_range (last_covered b e + 1 - start_loop) start_loop (span_body fl m b s e) entry

  same_body : (i : ℕ) (t : GapState fl) → span_body fl m b s e i t ≡ gap_body fl m extended i t
  unfolding span_body gap_body
  same_body i t = ground (arith, value i)

  middle : for_range (last_covered b e + 1) 0 (gap_body fl m extended) (no_gap fl) ≡ reached
  middle =
      for_split (gap_body fl m extended) start_loop (last_covered b e + 1 - start_loop)
        (last_covered b e + 1) 0 start_loop (no_gap fl) (omega (arith, start_loop-le)) (omega arith)
      ∙ ap (for_range (last_covered b e + 1 - start_loop) start_loop (gap_body fl m extended))
          prefix
      ∙ sym (
          for_cong (span_body fl m b s e) (gap_body fl m extended)
            (last_covered b e + 1 - start_loop) start_loop entry (λ i t l u. same_body i t))

  reached_closed : reached.start_gap ≡ not_found
  reached_closed =
      let l = last_covered b e in
      let two = for_split (gap_body fl m extended) l 1 (l + 1) 0 l (no_gap fl) refl (omega arith) in
      rw (← middle, two)
        (unfold for_range in
          gap_body_closes fl m extended l (for_range l 0 (gap_body fl m extended) (no_gap fl))
            last_is.covered)

  -- For a span of untranslated words inside a sentence shorter than NOT_FOUND: the future cost of
  -- the extension, computed without building it, is the future cost of the bitmap in which the
  -- span's words are translated, with the same additions in the same order.
  pub calc_future_score_span-eq :
      calc_future_score_span fl m b s e ≡ calc_future_score fl m (set_values b s e true)
  unfolding calc_future_score_span calc_future_score
  calc_future_score_span-eq =
      let l = last_covered b e in
      let len = length-set_values b s e true in
      let all =
        for_split (gap_body fl m extended) (l + 1) (length extended - (l + 1)) (length extended) 0
          (l + 1) (no_gap fl) (omega (arith, last_is.within)) (omega arith) in
      let tail =
        finish fl m extended reached l (omega (arith, last_is.within)) (omega arith)
          (λ i a u. last_is.rest i (omega arith)) reached_closed in
      let not_full : (get_first_gap_pos b == not_found) ≡ false = ground (arith, first_gap.below) in
      let whole = ap (close_score fl m extended) (
        all ∙ ap (for_range (length extended - (l + 1)) (l + 1) (gap_body fl m extended)) middle) in
      rw (not_full, len) (rw len at (sym (whole ∙ tail)))
