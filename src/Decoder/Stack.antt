-- ===== src/Decoder/Stack.antt =====
-- moses/src/HypothesisStack.cpp, HypothesisStackNormal.h and HypothesisStackNormal.cpp.
-- A stack holds pointers to hypotheses; freed ones are left out of the model, and so are the
-- counts of SentenceStats.
pub mod Sorting
pub mod Pruning
pub mod Kept
pub mod Config
pub mod Invariant
pub mod AddPrune
pub mod Best
pub mod Asserts
pub mod Diversity
pub mod Contents
use moses.Base.{
  ℕ, ◌+◌, ◌*◌, ◌%◌, ◌^◌, Ordering, ◌⊎◌, inl, inr, Bool, true, false, not, ◌&&◌, ◌||◌, Option, none,
  some, List, [], ◌∷◌, map, ltb, leb, ◌==◌, if◌then◌else◌, length, sub64,
}
use moses.Base.StdSet
use moses.Coverage.Bitmap.{get_id, id_fits}
use moses.FutureCost.Float.{Floats}
use moses.Decoder.Hypothesis.{Hypothesis, add_arc, recombine_compare}

-- map< WordsBitmapID, float >, the last write first.
abbrev pub ScoreMap : Type 0 → Type 0
ScoreMap F = List (ℕ × F)

pub record HypothesisStack (F S : Type 0) : Type 0 where
  pub hypos : List (Hypothesis F S)
  pub best_score : F
  pub worst_score : F
  pub diversity_worst_score : ScoreMap F
  pub beam_width : F
  pub max_hypo_stack_size : ℕ
  pub min_hypo_stack_diversity : ℕ
  pub n_best_is_enabled : Bool

-- How AddPrune ends: `aborted` is its call of abort() or a failed assertion of GetID.
pub data Added (A : Type 0) : Type 0 where
  returned : A → Bool → Added A
  aborted : Added A

unfoldable pub find_score {ℓ} : {V : Type ℓ} → ℕ → List (ℕ × V) → V → V
find_score id [] d = d
find_score id ((j, v) ∷ m) d = if j == id then v else find_score id m d

module _ {F S : Type 0} (fl : Floats F) (num_ffs : ℕ) (compare_state : S → S → Ordering) where
  abbrev Hypo : Type 0
  Hypo = Hypothesis F S

  abbrev Stack : Type 0
  Stack = HypothesisStack F S

  abbrev pub order : Hypo → Hypo → Ordering
  order = recombine_compare num_ffs compare_state

  unfoldable pub get_worst_score_for_bitmap : Stack → ℕ → F
  unfolding find_score
  get_worst_score_for_bitmap st id = find_score id st.diversity_worst_score fl.neg_infinity

  abbrev set_worst_score_for_bitmap : Stack → ℕ → F → Stack
  set_worst_score_for_bitmap st id worst = record st {
    diversity_worst_score = (id, worst) ∷ st.diversity_worst_score;
  }

  -- The constructor. The fields that it leaves unset get the arguments.
  unfoldable pub new_stack : Bool → F → ℕ → ℕ → Stack
  new_stack n_best_is_enabled beam_width max_size min_diversity = record {
    hypos = [];
    best_score = fl.neg_infinity;
    worst_score = fl.neg_infinity;
    diversity_worst_score = [];
    beam_width = beam_width;
    max_hypo_stack_size = max_size;
    min_hypo_stack_diversity = min_diversity;
    n_best_is_enabled = n_best_is_enabled;
  }

  unfoldable pub set_max_hypo_stack_size : Stack → ℕ → ℕ → Stack
  set_max_hypo_stack_size st max_size min_diversity = record st {
    max_hypo_stack_size = max_size;
    min_hypo_stack_diversity = min_diversity;
  }

  unfoldable pub set_beam_width : Stack → F → Stack
  set_beam_width st beam_width = record st { beam_width = beam_width }

  -- std::sort by CompareHypothesisTotalScore. The order of equal scores is not specified there.
  place : Hypo → List Hypo → List Hypo
  place h [] = h ∷ []
  place h (x ∷ xs) =
      let rest = place h xs in if fl.gt x.total_score h.total_score then x ∷ rest else h ∷ x ∷ xs

  unfoldable pub get_sorted_list : List Hypo → List Hypo
  unfolding place
  get_sorted_list [] = []
  get_sorted_list (h ∷ hs) = place h (get_sorted_list hs)

  -- Each hypothesis with the flag `included`.
  abbrev Marked : Type 0
  Marked = List (Hypo × Bool)

  -- m_hypos.insert(hyp)
  abbrev inserted : Stack → Hypo → Stack
  inserted st h = record st { hypos = StdSet.insert order h st.hypos }

  -- A hypothesis of a coverage that has been kept `count` times; the last one sets the bound.
  keep_diverse : Stack → Hypo → ℕ → Stack
  keep_diverse st h count =
      if count + 1 == st.min_hypo_stack_diversity
      then set_worst_score_for_bitmap (inserted st h) (get_id h.source_completed) h.total_score
      else inserted st h

  -- The loop that keeps the best hypotheses of each coverage; `counts` is diversityCount.
  diversity_pass : Stack → List (ℕ × ℕ) → List Hypo → Stack × Marked
  diversity_pass st counts [] = (st, [])
  diversity_pass st counts (h ∷ hs) =
      let coverage = get_id h.source_completed in
      let count = find_score coverage counts 0 in
      let room = ltb count st.min_hypo_stack_diversity in
      let rest =
        diversity_pass (if room then keep_diverse st h count else st)
          (if room then (coverage, count + 1) ∷ counts else counts) hs in
      (rest.0, (h, room) ∷ rest.1)

  -- The best remaining hypothesis; the one that fills the stack sets the bound.
  take_best : ℕ → Stack → Hypo → Stack
  take_best new_size st h =
      if length (inserted st h).hypos == new_size
      then record (inserted st h) { worst_score = h.total_score }
      else inserted st h

  -- The loop that fills up the stack from the best remaining hypotheses.
  fill : ℕ → Stack → Marked → Stack
  fill new_size st [] = st
  fill new_size st ((h, included) ∷ hs) =
      let rest = fill new_size (if included then st else take_best new_size st h) hs in
      if ltb (length st.hypos) new_size && fl.gt h.total_score (fl.add st.best_score st.beam_width)
      then rest
      else st

  -- The first part of a pruning: the emptied stack, refilled for diversity, and the flags.
  refill : Stack → Stack × Marked
  unfolding diversity_pass keep_diverse
  refill st =
      let sorted = get_sorted_list st.hypos in
      let cleared = record st { hypos = [] } in
      if ltb 0 st.min_hypo_stack_diversity
      then diversity_pass cleared [] sorted
      else (cleared, map (λ h. (h, false)) sorted)

  unfoldable pub prune_to_size : Stack → ℕ → Stack
  unfolding refill fill take_best
  prune_to_size st new_size =
      let kept = refill st in
      if leb (length st.hypos) new_size
      then st
      else if ltb (length kept.0.hypos) new_size
      then fill new_size kept.0 kept.1
      else kept.0

  -- The coverage of a hypothesis passes the assertions of GetID.
  abbrev pub has_id : Hypo → Bool
  has_id h = id_fits h.source_completed

  pub all_have_ids : List Hypo → Bool
  all_have_ids [] = true
  all_have_ids (h ∷ hs) = has_id h && all_have_ids hs

  -- The assertions that PruneToSize meets: for diversity it calls GetID on every hypothesis.
  pub prune_asserts : Stack → ℕ → Bool
  unfolding all_have_ids
  prune_asserts st new_size =
      leb (length st.hypos) new_size
      || (not (ltb 0 st.min_hypo_stack_diversity) || all_have_ids st.hypos)

  -- The scores that Add updates for a hypothesis that was inserted.
  pub note_scores : Stack → Hypo → Stack
  note_scores st h =
      let best =
        (if fl.gt h.total_score st.best_score
          then record st {
            best_score = h.total_score;
            worst_score =
                if fl.gt (fl.add h.total_score st.beam_width) st.worst_score
                then fl.add h.total_score st.beam_width
                else st.worst_score;
          }
          else st) in
      let id = get_id h.source_completed in
      if best.min_hypo_stack_diversity == 1
        && fl.gt h.total_score (get_worst_score_for_bitmap best id)
      then set_worst_score_for_bitmap best id h.total_score
      else best

  -- `max_distortion` is the shift by GetMaxDistortion(); size_t wraps around. A shift by 64 or
  -- more, which C++ leaves undefined, gives 0.
  abbrev tolerated_size : ℕ → Stack → ℕ
  tolerated_size max_distortion st =
      (sub64 (2 * st.max_hypo_stack_size % 18446744073709551616) 1
        + st.min_hypo_stack_diversity * 2 ^ max_distortion)
      % 18446744073709551616

  -- Add, for a hypothesis that has no equivalent in the stack.
  unfoldable pub insert_new : ℕ → Stack → Hypo → Stack
  unfolding note_scores prune_to_size
  insert_new max_distortion st h =
      let noted = note_scores (record st { hypos = StdSet.insert order h st.hypos }) h in
      if ltb (tolerated_size max_distortion noted) (length noted.hypos)
      then prune_to_size noted noted.max_hypo_stack_size
      else noted

  -- The assertions that Add meets after the insertion: GetID for the bound of a coverage, and those
  -- of its pruning.
  pub insert_asserts : ℕ → Stack → Hypo → Bool
  unfolding note_scores prune_asserts
  insert_asserts max_distortion st h =
      let noted = note_scores (record st { hypos = StdSet.insert order h st.hypos }) h in
      (not (st.min_hypo_stack_diversity == 1) || has_id h)
      && (not (ltb (tolerated_size max_distortion noted) (length noted.hypos))
          || prune_asserts noted noted.max_hypo_stack_size)

  -- Add: the equivalent hypothesis that is there already, or the stack with the new one.
  unfoldable pub add : ℕ → Stack → Hypo → Hypo ⊎ Stack
  unfolding insert_new
  add max_distortion st h = elim (StdSet.find order h st.hypos) [
    | some existing ↦ inl existing
    | none ↦ inr (insert_new max_distortion st h)
  ]

  -- Detach or Remove of the hypothesis that is equivalent to `h`.
  abbrev without : Stack → Hypo → Stack
  without st h = record st { hypos = StdSet.erase order h st.hypos }

  -- An equivalent hypothesis exists: keep the better one. An arc is added in place.
  recombine : ℕ → Stack → Hypo → Hypo → Added Stack
  unfolding add insert_asserts
  recombine max_distortion st h existing =
      let winner = (if st.n_best_is_enabled then add_arc h existing else h) in
      if fl.gt h.total_score existing.total_score
      then elim (add max_distortion (without st h) winner) [
        | inl _ ↦ aborted
        | inr st' ↦
            if insert_asserts max_distortion (without st h) winner
            then returned st' false
            else aborted
      ]
      else if st.n_best_is_enabled
      then returned
          (record st {
            hypos = StdSet.insert order (add_arc existing h) (StdSet.erase order h st.hypos);
          })
          false
      else returned st false

  abbrev too_bad : Stack → Hypo → Bool
  too_bad st h =
      fl.gt st.worst_score h.total_score
      && not (
          ltb 0 st.min_hypo_stack_diversity
          && fl.ge h.total_score (get_worst_score_for_bitmap st (get_id h.source_completed)))

  -- GetID is called for a hypothesis below the worst score, where a diversity bound is set.
  abbrev pub bad_asserts : Stack → Hypo → Bool
  bad_asserts st h =
      not (fl.gt st.worst_score h.total_score && ltb 0 st.min_hypo_stack_diversity) || has_id h

  unfoldable pub add_prune : ℕ → Stack → Hypo → Added Stack
  unfolding recombine insert_asserts
  add_prune max_distortion st h =
      if not (bad_asserts st h)
      then aborted
      else if too_bad st h
      then returned st false
      else elim (add max_distortion st h) [
        | inl existing ↦ recombine max_distortion st h existing
        | inr st' ↦ if insert_asserts max_distortion st h then returned st' true else aborted
      ]

  best_of : Hypo → List Hypo → Hypo
  best_of best [] = best
  best_of best (h ∷ hs) = best_of (if fl.gt h.total_score best.total_score then h else best) hs

  unfoldable pub get_best_hypothesis : Stack → Option Hypo
  unfolding best_of
  get_best_hypothesis st = elim st.hypos [ [] ↦ none | h ∷ hs ↦ some (best_of h hs) ]
