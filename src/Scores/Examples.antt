-- ===== src/Scores/Examples.antt =====
-- A manager of two producers, with two components and one.
use moses.Base.{ℕ, ◌+◌, ◌-◌, ◌*◌, ◌≡◌, refl, ◌⊎◌, true, false, List, [], ◌∷◌, arith, ltb, leb}
use moses.FutureCost.Float.{Floats}
use moses.Scores.Index
use moses.Scores.Index.{ScoreProducer, ScoreIndexManager, add_all, get_begin_index, get_end_index}
use moses.Scores.Collection.{get_scores_for_producer, assign_from}
use moses.Scores.Layout.{get_scores-assign}

abbrev counts : Floats ℕ
counts = record {
  zero_float = 0;
  neg_infinity = 0;
  add = λ a b. a + b;
  sub = λ a b. a - b;
  mul = λ a b. a * b;
  gt = λ a b. ltb b a;
  ge = λ a b. leb b a;
}

abbrev phrase_table : ScoreProducer
phrase_table = record {
  num_score_components = 2;
  is_stateless = true;
  computed_in_translation_option = true;
}

abbrev language_model : ScoreProducer
language_model = record {
  num_score_components = 1;
  is_stateless = false;
  computed_in_translation_option = false;
}

abbrev both : List ScoreProducer
both = phrase_table ∷ language_model ∷ []

abbrev slots : ScoreIndexManager
slots = add_all both Index.new

model_slots : (get_begin_index slots 1 ≡ 2) × (get_end_index slots 1 ≡ 3)
unfolding add_all Index.new
model_slots = (refl, refl)

get_scores-assign_example :
    (get_scores_for_producer counts
        (assign_from counts (1 ∷ 2 ∷ 3 ∷ []) (get_begin_index slots 0) (8 ∷ 9 ∷ []))
        (get_begin_index slots 0)
        (get_end_index slots 0)
      ≡ 8 ∷ 9 ∷ [])
    × ((◌≡◌ {A = ℕ} 1 0)
        ⊎ (get_scores_for_producer counts
              (assign_from counts (1 ∷ 2 ∷ 3 ∷ []) (get_begin_index slots 0) (8 ∷ 9 ∷ []))
              (get_begin_index slots 1)
              (get_end_index slots 1)
            ≡ get_scores_for_producer counts
                (1 ∷ 2 ∷ 3 ∷ [])
                (get_begin_index slots 1)
                (get_end_index slots 1)))
unfolding add_all Index.new
get_scores-assign_example =
    get_scores-assign counts both (1 ∷ 2 ∷ 3 ∷ []) (8 ∷ 9 ∷ []) 0 1 refl (omega arith) (omega arith)
      refl
