-- ===== src/FutureCost/Examples.antt =====
-- Future costs counted in natural numbers, for a sentence of five words.

use moses.Base.{
  ℕ, ◌+◌, ◌-◌, ◌*◌, ◌≡◌, refl, Bool, true, false, not, Option, none, some, List, [], ◌∷◌, arith,
  ltb, leb, get_or, replicate,
}
use moses.Coverage.Bitmap.{WordsBitmap, set_values, overlap, get_first_gap_pos, get_last_pos}
use moses.FutureCost.Float.{Floats, IsOrdered}
use moses.FutureCost.Matrix
use moses.FutureCost.Matrix.{SquareMatrix, calc_future_score, calc_future_score_span}
use moses.FutureCost.Incremental.{calc_future_score_span-eq}
use moses.FutureCost.Options.Best.{IsMonotone}
use moses.FutureCost.Options.Attained.{IsAbsorbing, IsBest, calc_future_scores-IsBest}
use moses.FutureCost.Options.{calc_future_scores}

abbrev counts : Floats ℕ
counts = record {
  zero_float = 0;
  neg_infinity = 0;
  add = λ a b. a + b;
  sub = λ a b. a - b;
  mul = λ a b. a * b;
  gt = λ a b. ltb b a;
  ge = λ a b. leb b a;
}

-- The cost of a span is its cell's number.
abbrev costs : SquareMatrix counts
costs = record {
  size = 5;
  cells =
      0 ∷ 1 ∷ 2 ∷ 3 ∷ 4 ∷ 5 ∷ 6 ∷ 7 ∷ 8 ∷ 9 ∷ 10 ∷ 11 ∷ 12 ∷ 13 ∷ 14 ∷ 15 ∷ 16 ∷ 17 ∷ 18 ∷ 19 ∷ 20
      ∷ 21 ∷ 22 ∷ 23 ∷ 24 ∷ [];
}

abbrev third_word : WordsBitmap
third_word = false ∷ false ∷ true ∷ false ∷ false ∷ []

-- The gaps are words 0-1 and 3-4: cells 1 and 19.
third_word_cost : calc_future_score counts costs third_word ≡ 20
unfolding calc_future_score Matrix.get_score
third_word_cost = refl

span_free : overlap third_word (record { start_pos = 1; end_pos = 1 }) ≡ false
unfolding overlap
span_free = refl

-- With word 1 translated the gaps are words 0 and 3-4.
calc_future_score_span-eq_example :
    calc_future_score_span counts costs third_word 1 1
    ≡ calc_future_score counts costs (set_values third_word 1 1 true)
calc_future_score_span-eq_example =
    calc_future_score_span-eq counts costs third_word 1 1 (omega arith) (omega arith) span_free
      (omega arith)

span_cost : calc_future_score_span counts costs third_word 1 1 ≡ 19
unfolding calc_future_score_span Matrix.get_score get_first_gap_pos get_last_pos
span_cost = refl

counts-IsOrdered : IsOrdered counts
counts-IsOrdered = record {
  asym = λ a b h. ground arith;
  negtrans = λ a b c h k. ground arith;
  ge_not_lt = λ a b. ground arith;
}

-- Options of the five words: each span has one that scores its length.
abbrev lengths : ℕ → ℕ → List ℕ
lengths start_pos end_pos = (end_pos + 1 - start_pos) ∷ []

-- Scores with a minus infinity, `none`.
abbrev add_low : Option ℕ → Option ℕ → Option ℕ
add_low none b = none
add_low (some a) none = none
add_low (some a) (some b) = some (a + b)

abbrev above : Option ℕ → Option ℕ → Bool
above none b = false
above (some a) none = true
above (some a) (some b) = ltb b a

abbrev with_low : Floats (Option ℕ)
with_low = record {
  zero_float = some 0;
  neg_infinity = none;
  add = add_low;
  sub = λ a b. a;
  mul = λ a b. a;
  gt = above;
  ge = λ a b. not (above b a);
}

above-asym : (a b : Option ℕ) → above a b ≡ true → above b a ≡ false
above-asym none b h = ground arith
above-asym (some a) none h = refl
above-asym (some a) (some b) h = ground (arith, h)

above-negtrans : (a b c : Option ℕ) → above a b ≡ false → above b c ≡ false → above a c ≡ false
above-negtrans none b c h k = refl
above-negtrans (some a) none c h k = ground (arith, h)
above-negtrans (some a) (some b) none h k = ground (arith, k)
above-negtrans (some a) (some b) (some c) h k = ground (arith, h, k)

with_low-IsOrdered : IsOrdered with_low
with_low-IsOrdered = record {
  asym = above-asym;
  negtrans = above-negtrans;
  ge_not_lt = λ a b. refl;
}

add_low_mono :
    (a a' b b' : Option ℕ)
    → above a a' ≡ false
    → above b b' ≡ false
    → above (add_low a b) (add_low a' b') ≡ false
add_low_mono none a' b b' h k = refl
add_low_mono (some a) a' none b' h k = refl
add_low_mono (some a) none (some b) b' h k = ground (arith, h)
add_low_mono (some a) (some a') (some b) none h k = ground (arith, k)
add_low_mono (some a) (some a') (some b) (some b') h k = ground (arith, h, k)

with_low-IsMonotone : IsMonotone with_low
with_low-IsMonotone = record { add_mono = add_low_mono }

with_low-IsAbsorbing : IsAbsorbing with_low
with_low-IsAbsorbing = record { add_left = λ b c. refl; add_right = low_right }
  where
    low_right : (a c : Option ℕ) → above (add_low a none) c ≡ false
    low_right none c = refl
    low_right (some a) c = refl

-- An option for each span, of a score that is its length.
abbrev by_length : ℕ → ℕ → List (Option ℕ)
by_length start_pos end_pos = some (end_pos + 1 - start_pos) ∷ []

abbrev blank_table : SquareMatrix with_low
blank_table = record { size = 5; cells = replicate 25 none }

calc_future_scores-IsBest_example :
    IsBest with_low with_low-IsOrdered with_low-IsAbsorbing 5 3 by_length 1 4
      (get_or (calc_future_scores with_low 5 3 by_length blank_table).cells 9 (some 0))
calc_future_scores-IsBest_example =
    calc_future_scores-IsBest with_low with_low-IsOrdered with_low-IsAbsorbing 5 3 by_length
      with_low-IsMonotone blank_table 1 4 refl refl (omega arith) (omega arith)

-- Four words are more than a phrase may have, so their score comes from two parts.
four_words :
    get_or (calc_future_scores with_low 5 3 by_length blank_table).cells 9 (some 0) ≡ some 4
unfolding calc_future_scores Matrix.get_score Matrix.set_score
four_words = refl
