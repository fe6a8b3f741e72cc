-- ===== src/FutureCost/Options.antt =====
-- TranslationOptionCollection::CalcFutureScore (moses/src/TranslationOptionCollection.cpp): the
-- table of the best estimated score of each span.
pub mod Bound
pub mod Best
pub mod Attained
use moses.Base.{ℕ, ◌+◌, ◌-◌, min, List, [], ◌∷◌, if◌then◌else◌, for_range}
use moses.FutureCost.Float.{Floats}
use moses.FutureCost.Matrix.{SquareMatrix, get_score, set_score}

module _ {F : Type 0} (fl : Floats F) where
  -- Both places that replace a smaller score.
  unfoldable pub raise_score : ℕ → ℕ → F → SquareMatrix fl → SquareMatrix fl
  raise_score start_pos end_pos score m =
      if fl.gt score (get_score fl m start_pos end_pos)
      then set_score fl m start_pos end_pos score
      else m

  -- The upper triangle is set to -inf.
  unfoldable pub reset_scores : ℕ → SquareMatrix fl → SquareMatrix fl
  unfolding for_range
  reset_scores size m =
      for_range size 0
        (λ row m'.
          for_range (size - row) row (λ col m''. set_score fl m'' row col fl.neg_infinity) m')
        m

  -- The loop over the options of one span.
  unfoldable pub raise_all : ℕ → ℕ → List F → SquareMatrix fl → SquareMatrix fl
  unfolding raise_score
  raise_all start_pos end_pos [] m = m
  raise_all start_pos end_pos (score ∷ scores) m =
      raise_all start_pos end_pos scores (raise_score start_pos end_pos score m)

  -- The loop over all spans; `options` gives GetFutureScore() of each option of a span.
  unfoldable pub raise_options : ℕ → ℕ → (ℕ → ℕ → List F) → SquareMatrix fl → SquareMatrix fl
  unfolding for_range raise_all
  raise_options size max_phrase_length options m =
      for_range size 0
        (λ start_pos m'.
          for_range (min (size - start_pos) max_phrase_length) start_pos
            (λ end_pos m''. raise_all start_pos end_pos (options start_pos end_pos) m'') m')
        m

  -- The loop over joinAt.
  unfoldable pub join_spans : ℕ → ℕ → SquareMatrix fl → SquareMatrix fl
  unfolding for_range raise_score
  join_spans start_pos end_pos m =
      for_range (end_pos - start_pos) start_pos
        (λ join_at m'.
          raise_score start_pos end_pos
            (fl.add (get_score fl m' start_pos join_at) (get_score fl m' (join_at + 1) end_pos)) m')
        m

  -- The loops over the diagonals.
  unfoldable pub join_all : ℕ → SquareMatrix fl → SquareMatrix fl
  unfolding for_range join_spans
  join_all size m =
      for_range (size - 1) 1
        (λ colstart m'.
          for_range (size - colstart) 0
            (λ diagshift m''. join_spans diagshift (colstart + diagshift) m'') m')
        m

  -- CalcFutureScore, for a matrix of `size` rows.
  unfoldable pub calc_future_scores : ℕ → ℕ → (ℕ → ℕ → List F) → SquareMatrix fl → SquareMatrix fl
  unfolding reset_scores raise_options join_all
  calc_future_scores size max_phrase_length options m =
      join_all size (raise_options size max_phrase_length options (reset_scores size m))
