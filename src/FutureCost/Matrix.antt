-- ===== src/FutureCost/Matrix.antt =====
-- moses/src/SquareMatrix.h and SquareMatrix.cpp: a score for each span, and the sum over gaps.
use moses.Base.{
  ℕ, ◌+◌, ◌-◌, ◌*◌, not, ◌&&◌, ◌||◌, List, not_found, ltb, leb, ◌==◌, if◌then◌else◌, get_or, set,
  for_range,
}
use moses.Coverage.Bitmap.{WordsBitmap, get_value, get_size, get_first_gap_pos, get_last_pos}
use moses.FutureCost.Float.{Floats}

-- lastCovered, moved to the end of the phrase
abbrev pub last_covered : WordsBitmap → ℕ → ℕ
last_covered b end_pos =
    if ltb (get_last_pos b) end_pos || get_last_pos b == not_found then end_pos else get_last_pos b

module _ {F : Type 0} (fl : Floats F) where
  -- `m_array` has m_size * m_size cells, the cell of a span at startPos * m_size + endPos.
  pub record SquareMatrix : Type 0 where
    pub size : ℕ
    pub cells : List F

  unfoldable pub get_score : SquareMatrix → ℕ → ℕ → F
  get_score m start_pos end_pos = get_or m.cells (start_pos * m.size + end_pos) fl.zero_float

  unfoldable pub set_score : SquareMatrix → ℕ → ℕ → F → SquareMatrix
  set_score m start_pos end_pos value = record m {
    cells = set m.cells (start_pos * m.size + end_pos) value;
  }

  -- `startGap` (NOT_FOUND outside a gap) and `futureScore`
  pub record GapState : Type 0 where
    pub start_gap : ℕ
    pub future_score : F

  -- futureScore += GetScore(startGap, currPos - 1); startGap = notInGap;
  abbrev pub close_gap : SquareMatrix → ℕ → GapState → GapState
  close_gap m curr_pos st = record {
    start_gap = not_found;
    future_score = fl.add st.future_score (get_score m st.start_gap (curr_pos - 1));
  }

  -- The loop's body in CalcFutureScore(bitmap).
  unfoldable pub gap_body : SquareMatrix → WordsBitmap → ℕ → GapState → GapState
  gap_body m b curr_pos st =
      if not (get_value b curr_pos) && st.start_gap == not_found
      then record st { start_gap = curr_pos }
      else if get_value b curr_pos && not (st.start_gap == not_found)
      then close_gap m curr_pos st
      else st

  abbrev pub no_gap : GapState
  no_gap = record { start_gap = not_found; future_score = fl.zero_float }

  -- CalcFutureScore(bitmap)
  unfoldable pub calc_future_score : SquareMatrix → WordsBitmap → F
  unfolding gap_body for_range
  calc_future_score m b =
      let st = for_range (get_size b) 0 (gap_body m b) no_gap in
      if not (st.start_gap == not_found)
      then fl.add st.future_score (get_score m st.start_gap (get_size b - 1))
      else st.future_score

  -- The loop's body in CalcFutureScore(bitmap, startPos, endPos).
  unfoldable pub span_body : SquareMatrix → WordsBitmap → ℕ → ℕ → ℕ → GapState → GapState
  span_body m b start_pos end_pos curr_pos st =
      if st.start_gap == not_found
        && not (get_value b curr_pos)
        && (ltb curr_pos start_pos || ltb end_pos curr_pos)
      then record st { start_gap = curr_pos }
      else if not (st.start_gap == not_found)
          && (get_value b curr_pos || (leb start_pos curr_pos && leb curr_pos end_pos))
      then close_gap m curr_pos st
      else st

  -- CalcFutureScore(bitmap, startPos, endPos)
  unfoldable pub calc_future_score_span : SquareMatrix → WordsBitmap → ℕ → ℕ → F
  unfolding span_body for_range
  calc_future_score_span m b start_pos end_pos =
      let first_gap = get_first_gap_pos b in
      let covers_gap = start_pos == first_gap in
      let start_loop = (if covers_gap then end_pos + 1 else first_gap + 1) in
      let last = last_covered b end_pos in
      let st =
        for_range (last + 1 - start_loop) start_loop (span_body m b start_pos end_pos) (record {
          start_gap = if covers_gap then not_found else first_gap;
          future_score = fl.zero_float;
        }) in
      if first_gap == not_found
      then fl.zero_float
      else if not (last == get_size b - 1)
      then fl.add st.future_score (get_score m (last + 1) (get_size b - 1))
      else st.future_score
