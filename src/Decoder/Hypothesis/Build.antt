-- ===== src/Decoder/Hypothesis/Build.antt =====
-- How a hypothesis is made and scored: the constructors, Create and CalcScore
-- (moses/src/Hypothesis.cpp).
use moses.Base.{
  ℕ, zero, suc, ◌+◌, ◌%◌, ◌≡◌, refl, ◌∙◌, Bool, true, false, not, ◌&&◌, Option, none, some, List,
  [], ◌∷◌, not_found, ltb, ◌==◌, if◌then◌else◌, length, sub64,
}
use moses.Coverage.Range.{WordsRange}
use moses.Coverage.Bitmap
use moses.Coverage.Bitmap.{overlap, set_values}
use moses.FutureCost.Float.{Floats}
use moses.FutureCost.Matrix.{SquareMatrix, calc_future_score}
use moses.Scores.Collection.{plus_equals, inner_product, scores_cover, length-plus_equals}
use moses.Phrases.Phrase.{Phrase, get_size, get_sub_string, is_compatible}
use moses.Decoder.Hypothesis.{Core}

-- TranslationOption, as far as hypotheses read it.
pub record TranslationOption (F : Type 0) : Type 0 where
  pub target_phrase : Phrase
  pub source_words_range : WordsRange
  pub future_score : F
  pub score_breakdown : List F

-- TranslationOption::IsDeletionOption
abbrev pub is_deletion_option : {F : Type 0} → TranslationOption F → Bool
is_deletion_option opt = get_size opt.target_phrase == 0

-- The interface that FeatureFunction.h declares. A stateful function gets the new hypothesis, its
-- state for the previous one and the scores so far.
pub record Features (F S : Type 0) : Type 0 where
  pub num_stateless : ℕ
  pub num_stateful : ℕ
  pub null_state : S
  pub empty_hypothesis_state : ℕ → S
  pub evaluate_stateless : ℕ → Phrase → List F → List F
  pub evaluate : ℕ → Core F S → S → List F → S × List F

-- Create: a hypothesis, NULL, or a failed assertion of the constructor.
pub data Created (A : Type 0) : Type 0 where
  created : A → Created A
  null : Created A
  failed : Created A

-- The sum of two numbers of type size_t.
abbrev add64 : ℕ → ℕ → ℕ
add64 a b = (a + b) % 18446744073709551616

module _ {F S : Type 0} (fl : Floats F) (ff : Features F S) where
  -- The constructor for the seed; `zeros` is the collection that ZeroAll leaves.
  unfoldable pub seed : ℕ → List F → Core F S
  seed size zeros = record {
    id = 0;
    prev_targets = [];
    target_phrase = [];
    source_completed = Bitmap.new size;
    curr_source_range = record { start_pos = not_found; end_pos = not_found };
    curr_target_range = record { start_pos = not_found; end_pos = not_found };
    word_deleted = false;
    score_breakdown = zeros;
    ff_states = ff.empty_hypothesis_state;
    future_score = fl.zero_float;
    total_score = fl.zero_float;
  }

  -- The constructor that continues `prev`, after its assertion.
  unfoldable pub extend : ℕ → Core F S → TranslationOption F → Core F S
  extend id prev opt =
      let r = opt.source_words_range in
      record {
        id = id;
        prev_targets = prev.target_phrase ∷ prev.prev_targets;
        target_phrase = opt.target_phrase;
        source_completed = set_values prev.source_completed r.start_pos r.end_pos true;
        curr_source_range = r;
        curr_target_range = record {
          start_pos = add64 prev.curr_target_range.end_pos 1;
          end_pos = add64 prev.curr_target_range.end_pos (get_size opt.target_phrase);
        };
        word_deleted = is_deletion_option opt;
        score_breakdown = prev.score_breakdown;
        ff_states = λ i. ff.null_state;
        future_score = fl.zero_float;
        total_score = fl.zero_float;
      }

  -- Whether Create goes on under a constraint: the words of the constraint at the place of the new
  -- target phrase are compatible with it.
  unfoldable pub fits_constraint : ℕ → Phrase → Core F S → TranslationOption F → Bool
  fits_constraint max_factors constraint prev opt =
      let start = add64 1 prev.curr_target_range.end_pos in
      let endpoint = sub64 (add64 start (get_size opt.target_phrase)) 1 in
      let range : WordsRange = record { start_pos = start; end_pos = endpoint } in
      if ltb endpoint (get_size constraint)
      then is_compatible max_factors (get_sub_string constraint range) opt.target_phrase
      else false

  abbrev pub allowed : ℕ → Option Phrase → Core F S → TranslationOption F → Bool
  allowed max_factors constraint prev opt = elim constraint [
    | none ↦ true
    | some phrase ↦ fits_constraint max_factors phrase prev opt
  ]

  -- Create(prevHypo, transOpt, constrainingPhrase), which CreateNext calls.
  unfoldable pub create_next :
      ℕ → Option Phrase → ℕ → Core F S → TranslationOption F → Created (Core F S)
  unfolding extend fits_constraint
  create_next max_factors constraint id prev opt =
      if not (allowed max_factors constraint prev opt)
      then null
      else if overlap prev.source_completed opt.source_words_range
      then failed
      else created (extend id prev opt)

  -- The loop over the stateless feature functions.
  stateless_rounds : ℕ → ℕ → Phrase → List F → List F
  stateless_rounds zero i target scores = scores
  stateless_rounds (suc n) i target scores =
      stateless_rounds n (i + 1) target (ff.evaluate_stateless i target scores)

  abbrev with_state : Core F S → ℕ → S → List F → Core F S
  with_state h i state scores = record h {
    ff_states = λ j. if j == i then state else h.ff_states j;
    score_breakdown = scores;
  }

  -- The loop over the stateful feature functions.
  stateful_rounds : ℕ → ℕ → (ℕ → S) → Core F S → Core F S
  stateful_rounds zero i previous h = h
  stateful_rounds (suc n) i previous h =
      let result = ff.evaluate i h (previous i) h.score_breakdown in
      stateful_rounds n (i + 1) previous (with_state h i result.0 result.1)

  -- CalcScore, for a hypothesis that continues one with the states `previous`.
  unfoldable pub calc_score :
      SquareMatrix fl → List F → (ℕ → S) → TranslationOption F → Core F S → Core F S
  unfolding stateless_rounds stateful_rounds
  calc_score future_costs weights previous opt h =
      let cached = plus_equals fl h.score_breakdown opt.score_breakdown in
      let scores = stateless_rounds ff.num_stateless 0 h.target_phrase cached in
      let scored =
        stateful_rounds ff.num_stateful 0 previous (record h { score_breakdown = scores }) in
      let future = calc_future_score fl future_costs scored.source_completed in
      record scored {
        future_score = future;
        total_score = fl.add (inner_product fl scored.score_breakdown weights) future;
      }

  -- What CalcScore needs: the assertion of PlusEquals, and a weight for each score.
  abbrev pub score_asserts : List F → TranslationOption F → Core F S → Core F S → Bool
  score_asserts weights opt h scored =
      scores_cover fl h.score_breakdown opt.score_breakdown
      && scores_cover fl weights scored.score_breakdown

  -- The feature functions keep the number of scores.
  pub record KeepsSize : Type 0 where
    pub stateless :
        (i : ℕ) (target : Phrase) (xs : List F)
        → length (ff.evaluate_stateless i target xs) ≡ length xs
    pub stateful :
        (i : ℕ) (h : Core F S) (s : S) (xs : List F) → length (ff.evaluate i h s xs).1 ≡ length xs

  length-stateless_rounds :
      KeepsSize
      → (n i : ℕ) (target : Phrase) (xs : List F)
      → length (stateless_rounds n i target xs) ≡ length xs
  unfolding stateless_rounds
  length-stateless_rounds keeps zero i target xs = refl
  length-stateless_rounds keeps (suc n) i target xs =
      length-stateless_rounds keeps n (i + 1) target (ff.evaluate_stateless i target xs)
      ∙ keeps.stateless i target xs

  length-stateful_rounds :
      KeepsSize
      → (n i : ℕ) (previous : ℕ → S) (h : Core F S)
      → length (stateful_rounds n i previous h).score_breakdown ≡ length h.score_breakdown
  unfolding stateful_rounds
  length-stateful_rounds keeps zero i previous h = refl
  length-stateful_rounds keeps (suc n) i previous h =
      let result = ff.evaluate i h (previous i) h.score_breakdown in
      length-stateful_rounds keeps n (i + 1) previous (with_state h i result.0 result.1)
      ∙ keeps.stateful i h (previous i) h.score_breakdown

  pub length-calc_score :
      KeepsSize
      → (future_costs : SquareMatrix fl) (weights : List F) (previous : ℕ → S)
        (opt : TranslationOption F) (h : Core F S)
      → length (calc_score future_costs weights previous opt h).score_breakdown
        ≡ length h.score_breakdown
  unfolding calc_score
  length-calc_score keeps future_costs weights previous opt h =
      let cached = plus_equals fl h.score_breakdown opt.score_breakdown in
      let scores = stateless_rounds ff.num_stateless 0 h.target_phrase cached in
      length-stateful_rounds keeps ff.num_stateful 0 previous
        (record h { score_breakdown = scores })
      ∙ length-stateless_rounds keeps ff.num_stateless 0 h.target_phrase cached
      ∙ length-plus_equals fl h.score_breakdown opt.score_breakdown

  -- The fields that say what has been translated.
  pub record SameWords (h k : Core F S) : Type 0 where
    pub prev_targets : k.prev_targets ≡ h.prev_targets
    pub target_phrase : k.target_phrase ≡ h.target_phrase
    pub source_completed : k.source_completed ≡ h.source_completed
    pub curr_source_range : k.curr_source_range ≡ h.curr_source_range
    pub curr_target_range : k.curr_target_range ≡ h.curr_target_range

  stateful_rounds-SameWords :
      (n i : ℕ) (previous : ℕ → S) (h : Core F S) → SameWords h (stateful_rounds n i previous h)
  unfolding stateful_rounds
  stateful_rounds-SameWords zero i previous h = record {
    prev_targets = refl;
    target_phrase = refl;
    source_completed = refl;
    curr_source_range = refl;
    curr_target_range = refl;
  }
  stateful_rounds-SameWords (suc n) i previous h =
      let result = ff.evaluate i h (previous i) h.score_breakdown in
      let same = stateful_rounds-SameWords n (i + 1) previous (with_state h i result.0 result.1) in
      record {
        prev_targets = same.prev_targets;
        target_phrase = same.target_phrase;
        source_completed = same.source_completed;
        curr_source_range = same.curr_source_range;
        curr_target_range = same.curr_target_range;
      }

  pub calc_score-SameWords :
      (future_costs : SquareMatrix fl) (weights : List F) (previous : ℕ → S)
      (opt : TranslationOption F) (h : Core F S)
      → SameWords h (calc_score future_costs weights previous opt h)
  unfolding calc_score
  calc_score-SameWords future_costs weights previous opt h =
      let cached = plus_equals fl h.score_breakdown opt.score_breakdown in
      let scores = stateless_rounds ff.num_stateless 0 h.target_phrase cached in
      let same =
        stateful_rounds-SameWords ff.num_stateful 0 previous
          (record h { score_breakdown = scores }) in
      record {
        prev_targets = same.prev_targets;
        target_phrase = same.target_phrase;
        source_completed = same.source_completed;
        curr_source_range = same.curr_source_range;
        curr_target_range = same.curr_target_range;
      }
