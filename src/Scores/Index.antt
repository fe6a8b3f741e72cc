-- ===== src/Scores/Index.antt =====
-- ScoreIndexManager (moses/src/ScoreIndexManager.h, ScoreIndexManager.cpp): each score producer
-- gets the slots behind those of the producers before it.
use moses.Base.{ℕ, ◌+◌, Bool, not, ◌&&◌, List, [], ◌∷◌, ◌++◌, if◌then◌else◌, length, get_or}

-- What AddScoreProducer asks of a producer.
pub record ScoreProducer : Type 0 where
  pub num_score_components : ℕ
  pub is_stateless : Bool
  pub computed_in_translation_option : Bool

-- A producer's bookkeeping ID is its position. `stateless` and `stateful` list IDs.
pub record ScoreIndexManager : Type 0 where
  pub begins : List ℕ
  pub ends : List ℕ
  pub producers : List ScoreProducer
  pub stateless : List ℕ
  pub stateful : List ℕ
  pub last : ℕ

unfoldable pub new : ScoreIndexManager
new = record { begins = []; ends = []; producers = []; stateless = []; stateful = []; last = 0 }

-- AddScoreProducer, for a producer with at least one component.
unfoldable pub add_score_producer : ScoreProducer → ScoreIndexManager → ScoreIndexManager
add_score_producer sp sim =
    let id = length sim.begins in
    record {
      begins = sim.begins ++ sim.last ∷ [];
      ends = sim.ends ++ (sim.last + sp.num_score_components) ∷ [];
      producers = sim.producers ++ sp ∷ [];
      stateless =
          if sp.is_stateless && not sp.computed_in_translation_option
          then sim.stateless ++ id ∷ []
          else sim.stateless;
      stateful = if sp.is_stateless then sim.stateful else sim.stateful ++ id ∷ [];
      last = sim.last + sp.num_score_components;
    }

-- The producers in the order in which they are added.
unfoldable pub add_all : List ScoreProducer → ScoreIndexManager → ScoreIndexManager
unfolding add_score_producer
add_all [] sim = sim
add_all (sp ∷ sps) sim = add_all sps (add_score_producer sp sim)

abbrev pub get_begin_index : ScoreIndexManager → ℕ → ℕ
get_begin_index sim id = get_or sim.begins id 0

abbrev pub get_end_index : ScoreIndexManager → ℕ → ℕ
get_end_index sim id = get_or sim.ends id 0

abbrev pub get_total_number_of_scores : ScoreIndexManager → ℕ
get_total_number_of_scores sim = sim.last
