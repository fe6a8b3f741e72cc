-- ===== src/Decoder/Search.antt =====
-- SearchNormal::ProcessOneHypothesis (moses/src/SearchNormal.cpp), with what it asks of the input
-- (moses/src/InputType.cpp). The result is the list of spans for which ExpandAllHypotheses is
-- called, in that order.
pub mod Spans
pub mod Reach
use moses.Base.{
  ℕ, zero, suc, ◌+◌, ◌-◌, Bool, true, false, not, ◌&&◌, ◌||◌, List, [], ◌∷◌, ◌++◌, not_found, ltb,
  ◌==◌, if◌then◌else◌, ℤ, pos, negsuc,
}
use moses.Coverage.Range
use moses.Coverage.Range.{WordsRange}
use moses.Coverage.Bitmap.{
  WordsBitmap, get_first_gap_pos, overlap, get_edge_to_the_left_of, get_edge_to_the_right_of,
}
use moses.Reordering.Constraint.{ReorderingConstraint, check}

-- The conversion of an int to size_t.
unfoldable pub to_size : ℤ → ℕ
to_size (pos n) = n
to_size (negsuc n) = 18446744073709551615 - n

-- i > n, for an int that is compared with a nonnegative one.
unfoldable pub exceeds : ℤ → ℕ → Bool
exceeds (pos m) n = ltb n m
exceeds (negsuc m) n = false

-- What the search asks of the input, with the input type that StaticData holds.
pub record InputType : Type 0 where
  pub size : ℕ
  pub is_word_lattice : Bool
  pub compute_distortion_distance : WordsRange → WordsRange → ℤ
  pub can_i_get_from_a_to_b : ℕ → ℕ → Bool

abbrev is_coverage_possible : InputType → WordsRange → Bool
is_coverage_possible input r = input.can_i_get_from_a_to_b r.start_pos (r.end_pos + 1)

abbrev abs_diff : ℕ → ℕ → ℕ
abs_diff a b = if ltb a b then b - a else a - b

-- InputType::ComputeDistortionDistance: abs(prev end - current start + 1).
unfoldable pub text_distance : WordsRange → WordsRange → ℤ
text_distance prev current =
    if Range.get_num_words_covered prev == 0
    then pos current.start_pos
    else pos (abs_diff (prev.end_pos + 1) current.start_pos)

-- A sentence: the default implementations of InputType.
unfoldable pub text : ℕ → InputType
unfolding text_distance
text size = record {
  size = size;
  is_word_lattice = false;
  compute_distortion_distance = text_distance;
  can_i_get_from_a_to_b = λ start end. true;
}

-- GetEndPos() + 1 after the conversion to int, which takes NOT_FOUND to -1.
abbrev pub after_end : WordsRange → ℕ
after_end r = if r.end_pos == not_found then 0 else r.end_pos + 1

module _ (input : InputType) (max_distortion : ℤ) (max_phrase_length : ℕ)
    (rc : ReorderingConstraint) (has_options : WordsRange → Bool) (b : WordsBitmap) where
  abbrev span : ℕ → ℕ → WordsRange
  span start_pos end_pos = record { start_pos = start_pos; end_pos = end_pos }

  -- The checks that both loops make.
  unfoldable pub basic_checks : ℕ → ℕ → Bool
  basic_checks start_pos end_pos =
      has_options (span start_pos end_pos)
      && not (overlap b (span start_pos end_pos))
      && check rc (to_size max_distortion) b start_pos end_pos

  -- The tests of the main loop's inner loop, for a limit `d`.
  unfoldable pub end_ok : ℕ → ℕ → ℕ → Bool
  unfolding basic_checks
  end_ok d start_pos end_pos =
      let first_gap = get_first_gap_pos b in
      let closest_right = get_edge_to_the_right_of b end_pos in
      if not (basic_checks start_pos end_pos)
        || (input.is_word_lattice && not (is_coverage_possible input (span start_pos end_pos)))
      then false
      else if input.is_word_lattice
          && not (closest_right == end_pos)
          && ltb (closest_right + 1) input.size
          && not (input.can_i_get_from_a_to_b end_pos (closest_right + 1))
      then false
      else if first_gap == start_pos
      then true
      else not (
          exceeds
            (input.compute_distortion_distance (span start_pos end_pos) (span first_gap first_gap))
            d)

  -- The tests that let the main loop pass over a start position.
  unfoldable pub start_ok : ℕ → WordsRange → ℕ → Bool
  start_ok d last start_pos =
      let closest_left = get_edge_to_the_left_of b start_pos in
      if not (start_pos == 0) && ltb (d + after_end last) start_pos
      then false
      else if input.is_word_lattice
          && not (closest_left == 0)
          && not (closest_left == start_pos)
          && not (input.can_i_get_from_a_to_b closest_left start_pos)
      then false
      else true

  abbrev pub max_size : ℕ → ℕ
  max_size start_pos =
      if ltb (input.size - start_pos) max_phrase_length
      then input.size - start_pos
      else max_phrase_length

  end_rounds : (ℕ → ℕ → Bool) → ℕ → ℕ → ℕ → List WordsRange
  end_rounds ok zero start_pos end_pos = []
  end_rounds ok (suc n) start_pos end_pos =
      let rest = end_rounds ok n start_pos (end_pos + 1) in
      if ok start_pos end_pos then span start_pos end_pos ∷ rest else rest

  start_rounds : (ℕ → Bool) → (ℕ → ℕ → Bool) → ℕ → ℕ → List WordsRange
  start_rounds start ok zero start_pos = []
  start_rounds start ok (suc n) start_pos =
      let rest = start_rounds start ok n (start_pos + 1) in
      let here = end_rounds ok (max_size start_pos) start_pos start_pos in
      if start start_pos then here ++ rest else rest

  -- `last` is the source span that the hypothesis translated last.
  unfoldable pub process_one_hypothesis : WordsRange → List WordsRange
  unfolding start_rounds end_rounds
  process_one_hypothesis last =
      let first_gap = get_first_gap_pos b in
      elim max_distortion [
        | pos d ↦ start_rounds (start_ok d last) (end_ok d) (input.size - first_gap) first_gap
        | negsuc k ↦
            start_rounds (λ start_pos. true) basic_checks (input.size - first_gap) first_gap
      ]
