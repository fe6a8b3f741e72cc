-- ===== src/Decoder/Sentence/Examples.antt =====
-- A search over a text of two words, with an option for each span, one score and one feature
-- function with states.
use moses.Base.{
  ℕ, ◌+◌, ◌-◌, ◌*◌, compare, ◌≡◌, refl, inl, inr, Bool, true, false, none, List, [], ◌∷◌, arith,
  ltb, leb, pos,
}
use moses.Base.StdSet.{IsComparator}
use mathlib.Core.List.Memᴰ
use moses.Coverage.Range.{WordsRange}
use moses.FutureCost.Float.{Floats, IsOrdered}
use moses.Reordering.Constraint
use moses.Decoder.Hypothesis.{Core}
use moses.Decoder.Hypothesis.Build.{TranslationOption, Features}
use moses.Decoder.Search.{text}
use moses.Decoder.Sentence.Usable.{Finishes, IsUsable}
use moses.Decoder.Sentence.Complete.{search}
use moses.Decoder.Sentence.TimeOut.{search_best-unset_stack}
use moses.Decoder.Sentence.{Settings, Task, Search, Outcome, crashed, search_best}

abbrev points : Floats ℕ
points = record {
  zero_float = 0;
  neg_infinity = 0;
  add = λ a b. a + b;
  sub = λ a b. a - b;
  mul = λ a b. a * b;
  gt = λ a b. ltb b a;
  ge = λ a b. leb b a;
}

points-IsOrdered : IsOrdered points
points-IsOrdered = record {
  asym = λ a b h. ground arith;
  negtrans = λ a b c h k. ground arith;
  ge_not_lt = λ a b. ground arith;
}

numbers-IsComparator : IsComparator compare
numbers-IsComparator = record {
  sides = λ a b. ground arith;
  trans = λ a b c h k. ground arith;
  alike = λ a b c h. ground arith;
}

-- The state is the number of phrases.
abbrev phrases_so_far : Features ℕ ℕ
phrases_so_far = record {
  num_stateless = 0;
  num_stateful = 1;
  null_state = 0;
  empty_hypothesis_state = λ i. 0;
  evaluate_stateless = λ i target scores. scores;
  evaluate = λ i h state scores. (state + 1, scores);
}

abbrev same_list : ℕ → List (Core ℕ ℕ) → List (Core ℕ ℕ)
same_list n arcs = arcs

abbrev settings : Settings ℕ
settings = record {
  use_early_discarding = false;
  early_discarding_threshold = 0;
  max_hypo_stack_size = 10;
  min_hypo_stack_diversity = 0;
  beam_width = 0;
  n_best_is_enabled = false;
  n_best_size = 0;
  distinct_n_best = false;
  max_distortion = pos 6;
  negative_shift = 0;
  max_phrase_length = 2;
  max_num_factors = 4;
  num_scores = 1;
  all_weights = 1 ∷ [];
}

-- A diversity bound, so that the search calls GetID.
abbrev diverse : Settings ℕ
diverse = record settings { min_hypo_stack_diversity = 1 }

abbrev option_for : WordsRange → TranslationOption ℕ
option_for r = record {
  target_phrase = [];
  source_words_range = r;
  future_score = 3;
  score_breakdown = 3 ∷ [];
}

abbrev translate : (ℕ → Bool) → Task points
translate clock = record {
  input = text 2;
  rc = Constraint.new;
  constraint = none;
  options = λ r. option_for r ∷ [];
  future_costs = record { size = 2; cells = 0 ∷ 0 ∷ 0 ∷ 0 ∷ [] };
  timed_out = clock;
}

abbrev in_time : ℕ → Bool
in_time k = false

abbrev at_once : ℕ → Bool
at_once k = true

abbrev after_one : ℕ → Bool
after_one k = ltb 0 k

usable-with :
    (clock : ℕ → Bool) (diversity : ℕ)
    → IsUsable points phrases_so_far compare same_list
        (record settings { min_hypo_stack_diversity = diversity })
        (translate clock)
usable-with clock diversity = record {
  ordered = points-IsOrdered;
  lawful = numbers-IsComparator;
  simple = refl;
  limit = omega arith;
  arcs = inl refl;
  ranges = λ r opt m. elim (Memᴰ.cases_cons m) [
    | inl here ↦ rw here refl
    | inr none_left ↦ absurd (Memᴰ.not-nil none_left)
  ];
  breakdown = λ r opt m. elim (Memᴰ.cases_cons m) [
    | inl here ↦ rw here (omega arith)
    | inr none_left ↦ absurd (Memᴰ.not-nil none_left)
  ];
  keeps = record { stateless = λ i target xs. refl; stateful = λ i h s xs. refl };
  weights = omega arith;
}

abbrev run : (ℕ → Bool) → Outcome (Search ℕ ℕ)
run clock = search points phrases_so_far compare same_list settings (translate clock)

search_best-unset_stack_example :
    Finishes
      (λ st.
        search_best points phrases_so_far compare same_list settings (translate at_once) st
        ≡ crashed)
      (run at_once)
search_best-unset_stack_example =
    search_best-unset_stack points phrases_so_far compare same_list settings (translate at_once)
      (usable-with at_once 0) refl refl
