-- ===== src/Scores/Layout.antt =====
-- The slots of different producers do not meet, so that each producer's scores can be written and
-- read back by themselves.
use moses.Base.{
  ℕ, zero, suc, ◌+◌, ◌-◌, ◌≤◌, ◌<◌, ◌≡◌, refl, ◌⊎◌, inl, inr, true, List, [], ◌∷◌, ◌++◌, arith, ltb,
  ◌==◌, if◌then◌else◌, Bool-cases, length, get_or, length-append,
}
use moses.FutureCost.Float.{Floats}
use moses.Scores.Index
use moses.Scores.Index.{
  ScoreIndexManager, ScoreProducer, add_score_producer, add_all, get_begin_index, get_end_index,
}
use moses.Scores.Collection.{
  assign_from, get_scores_for_producer, scores_from-assign_from, scores_from-assign_from_other,
}

get_or-snoc {ℓ} :
    {A : Type ℓ} (xs : List A) (x : A) (i : ℕ) (d : A)
    → get_or (xs ++ x ∷ []) i d ≡ (if i == length xs then x else get_or xs i d)
get_or-snoc [] x zero d = refl
get_or-snoc [] x (suc i) d = ground arith
get_or-snoc (y ∷ xs) x zero d = ground arith
get_or-snoc (y ∷ xs) x (suc i) d = ground (arith, get_or-snoc xs x i d)

abbrev pub nobody : ScoreProducer
nobody = record {
  num_score_components = 0;
  is_stateless = true;
  computed_in_translation_option = true;
}

-- The slots of producer `id` are as many as its components, and those of later ones come behind.
pub record IsLayout (sim : ScoreIndexManager) : Type 0 where
  pub ends_length : length sim.ends ≡ length sim.begins
  pub producers_length : length sim.producers ≡ length sim.begins
  pub top : (i : ℕ) → i < length sim.begins → get_end_index sim i ≤ sim.last
  pub wide :
      (i : ℕ)
      → i < length sim.begins
      → get_end_index sim i
        ≡ get_begin_index sim i + (get_or sim.producers i nobody).num_score_components
  pub ordered :
      (i j : ℕ) → i < j → j < length sim.begins → get_end_index sim i ≤ get_begin_index sim j

new-IsLayout : IsLayout Index.new
unfolding Index.new
new-IsLayout = record {
  ends_length = refl;
  producers_length = refl;
  top = λ i h. absurd (omega arith);
  wide = λ i h. absurd (omega arith);
  ordered = λ i j h l. absurd (omega arith);
}

add_score_producer-IsLayout :
    (sp : ScoreProducer) (sim : ScoreIndexManager)
    → IsLayout sim
    → IsLayout (add_score_producer sp sim)
unfolding add_score_producer
add_score_producer-IsLayout sp sim v =
    let n = length sim.begins in
    let longer : length (sim.begins ++ sim.last ∷ []) ≡ n + 1 =
      length-append sim.begins (sim.last ∷ []) in
    let begin = λ (i : ℕ). get_or-snoc sim.begins sim.last i 0 in
    let end = λ (i : ℕ). get_or-snoc sim.ends (sim.last + sp.num_score_components) i 0 in
    let producer = λ (i : ℕ). get_or-snoc sim.producers sp i nobody in
    let e = v.ends_length in
    let p = v.producers_length in
    record {
      ends_length =
          omega (arith, length-append sim.ends ((sim.last + sp.num_score_components) ∷ []), longer);
      producers_length = omega (arith, length-append sim.producers (sp ∷ []), longer);
      top = λ i h. ground (arith, end i, v.top i);
      wide = λ i h. ground (arith, end i, begin i, producer i, v.wide i);
      ordered = λ i j h l. ground (arith, end i, begin j, v.ordered i j, v.top i);
    }

add_all-IsLayout :
    (sps : List ScoreProducer) (sim : ScoreIndexManager) → IsLayout sim → IsLayout (add_all sps sim)
unfolding add_all
add_all-IsLayout [] sim v = v
add_all-IsLayout (sp ∷ sps) sim v =
    add_all-IsLayout sps (add_score_producer sp sim) (add_score_producer-IsLayout sp sim v)

module _ {F : Type 0} (fl : Floats F) where
  -- For producers added to a new manager and a collection with all its slots: after a producer's
  -- scores are assigned they are read back, and what is read for any other producer is as before.
  pub get_scores-assign :
      (sps : List ScoreProducer) (xs vs : List F) (i j : ℕ)
      → length xs ≡ (add_all sps Index.new).last
      → i < length (add_all sps Index.new).begins
      → j < length (add_all sps Index.new).begins
      → length vs ≡ (get_or (add_all sps Index.new).producers i nobody).num_score_components
      → (get_scores_for_producer fl
            (assign_from fl xs (get_begin_index (add_all sps Index.new) i) vs)
            (get_begin_index (add_all sps Index.new) i)
            (get_end_index (add_all sps Index.new) i)
          ≡ vs)
        × ((j ≡ i)
            ⊎ (get_scores_for_producer fl
                  (assign_from fl xs (get_begin_index (add_all sps Index.new) i) vs)
                  (get_begin_index (add_all sps Index.new) j)
                  (get_end_index (add_all sps Index.new) j)
                ≡ get_scores_for_producer fl xs
                    (get_begin_index (add_all sps Index.new) j)
                    (get_end_index (add_all sps Index.new) j)))
  unfolding get_scores_for_producer
  get_scores-assign sps xs vs i j total hi hj len =
      let sim = add_all sps Index.new in
      let v = add_all-IsLayout sps Index.new new-IsLayout in
      let b = get_begin_index sim i in
      let room : b + length vs ≤ length xs = omega (arith, v.wide i hi, v.top i hi) in
      let size : get_end_index sim i - b ≡ length vs = omega (arith, v.wide i hi) in
      (
        rw size (scores_from-assign_from fl xs b vs room),
        elim (Bool-cases (j == i)) [
          | inl same ↦ inl (ground arith)
          | inr other ↦ inr (
              scores_from-assign_from_other fl xs b vs (get_end_index sim j - get_begin_index sim j)
                (get_begin_index sim j)
                (elim (Bool-cases (ltb j i)) [
                  | inl before ↦ inl (omega (arith, v.ordered j i (ground arith) hi, v.wide j hj))
                  | inr after ↦ inr (omega (arith, v.ordered i j (ground arith) hj, v.wide i hi))
                ])
                room)
        ],
      )
