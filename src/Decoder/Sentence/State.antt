-- ===== src/Decoder/Sentence/State.antt =====
-- The state of the search: settings, task, stacks, and how a step ends (moses/src/SearchNormal.h,
-- StaticData.h).
use moses.Base.{ℕ, zero, suc, Bool, Option, List, [], ◌∷◌, ℤ}
use moses.Coverage.Range.{WordsRange}
use moses.FutureCost.Float.{Floats}
use moses.FutureCost.Matrix.{SquareMatrix}
use moses.Reordering.Constraint.{ReorderingConstraint}
use moses.Phrases.Phrase.{Phrase}
use moses.Decoder.Hypothesis.Build.{TranslationOption}
use moses.Decoder.Stack.{HypothesisStack}
use moses.Decoder.Search.{InputType}

-- What StaticData holds for the search. `distinct_n_best` is the disjunction that CleanupArcList
-- makes; `negative_shift` is the distance by which the machine shifts when the limit is negative,
-- which C++ leaves undefined.
pub record Settings (F : Type 0) : Type 0 where
  pub use_early_discarding : Bool
  pub early_discarding_threshold : F
  pub max_hypo_stack_size : ℕ
  pub min_hypo_stack_diversity : ℕ
  pub beam_width : F
  pub n_best_is_enabled : Bool
  pub n_best_size : ℕ
  pub distinct_n_best : Bool
  pub max_distortion : ℤ
  pub negative_shift : ℕ
  pub max_phrase_length : ℕ
  pub max_num_factors : ℕ
  pub num_scores : ℕ
  pub all_weights : List F

-- The sentence with its constraint, the options of each span and the table of future costs.
-- `timed_out k` says whether the time is over when the loop comes to stack k.
pub record Task {F : Type 0} (fl : Floats F) : Type 0 where
  pub input : InputType
  pub rc : ReorderingConstraint
  pub constraint : Option Phrase
  pub options : WordsRange → List (TranslationOption F)
  pub future_costs : SquareMatrix fl
  pub timed_out : ℕ → Bool

-- `interrupted_flag` and `actual_hypoStack`, which the constructor leaves unset; `next_id` is
-- s_HypothesesCreated, an unsigned int.
pub record Search (F S : Type 0) : Type 0 where
  pub stacks : List (HypothesisStack F S)
  pub next_id : ℕ
  pub interrupted_flag : Bool
  pub actual_hypo_stack : Option ℕ

-- A step that finishes, or one that ends the program: a failed assertion, abort(), or an access
-- past the end of the stacks.
pub data Outcome (A : Type 0) : Type 0 where
  finished : A → Outcome A
  crashed : Outcome A

-- A loop over a list of things to do.
unfoldable pub each : {A B : Type 0} → (A → B → Outcome B) → List A → B → Outcome B
each f [] st = finished st
each f (x ∷ xs) st = elim (f x st) [ finished st' ↦ each f xs st' | crashed ↦ crashed ]

unfoldable pub first_of : {A : Type 0} → ℕ → List A → List A
first_of zero xs = []
first_of (suc n) [] = []
first_of (suc n) (x ∷ xs) = x ∷ first_of n xs
