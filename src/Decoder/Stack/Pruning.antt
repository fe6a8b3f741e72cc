-- ===== src/Decoder/Stack/Pruning.antt =====
-- PruneToSize: what it keeps, how much, and which hypotheses it may drop.
use moses.Base.{ℕ, ◌+◌, Ordering, Bool, false, List, [], ◌∷◌, map, ltb, if◌then◌else◌, if_inv}
use moses.Base.StdSet
use moses.Base.StdSet.{
  All, Sorted, IsComparator, All-insert, All-mem, insert-Sorted, length-insert-le, mem-insert,
  mem-insert_self,
}
use moses.Coverage.Bitmap.{get_id}
use moses.FutureCost.Float.{Floats}
use moses.Decoder.Hypothesis.{Hypothesis}
use moses.Decoder.Stack.{
  HypothesisStack, diversity_pass, fill, find_score, keep_diverse, take_best, refill, inserted,
  prune_to_size, get_sorted_list, order,
}
use moses.Decoder.Stack.Sorting.{All-get_sorted_list}

module _ {F S : Type 0} (fl : Floats F) (num_ffs : ℕ) (cmp : S → S → Ordering) where
  -- An invariant `I` of sets that insertions of hypotheses with `P` keep.
  module _ {κ} (P : Hypothesis F S → Type κ) (I : List (Hypothesis F S) → Type κ)
      (keep : (h : Hypothesis F S) (xs : List (Hypothesis F S))
        → P h
        → I xs
        → I (StdSet.insert (order fl num_ffs cmp) h xs)) where
    abbrev OfMarked : Hypothesis F S × Bool → Type κ
    OfMarked m = P m.0

    inserted_inv :
        (st : HypothesisStack F S) (h : Hypothesis F S)
        → P h
        → I st.hypos
        → I (inserted fl num_ffs cmp st h).hypos
    inserted_inv st h p i = keep h st.hypos p i

    keep_diverse_inv :
        (st : HypothesisStack F S) (h : Hypothesis F S) (count : ℕ)
        → P h
        → I st.hypos
        → I (keep_diverse fl num_ffs cmp st h count).hypos
    unfolding keep_diverse
    keep_diverse_inv st h count p i =
        if_inv (λ (s : HypothesisStack F S). I s.hypos) _ _ _ (inserted_inv st h p i)
          (inserted_inv st h p i)

    diversity_pass_inv :
        (st : HypothesisStack F S) (counts : List (ℕ × ℕ)) (hs : List (Hypothesis F S))
        → I st.hypos
        → All P hs
        → I (diversity_pass fl num_ffs cmp st counts hs).0.hypos
          × All OfMarked (diversity_pass fl num_ffs cmp st counts hs).1
    unfolding diversity_pass
    diversity_pass_inv st counts [] i a = (i, tt)
    diversity_pass_inv st counts (h ∷ hs) i a =
        let count = find_score (get_id h.source_completed) counts 0 in
        let room = ltb count st.min_hypo_stack_diversity in
        let st' = (if room then keep_diverse fl num_ffs cmp st h count else st) in
        let i' : I st'.hypos =
          if_inv (λ (s : HypothesisStack F S). I s.hypos) room
            (keep_diverse fl num_ffs cmp st h count) st (keep_diverse_inv st h count a.0 i) i in
        let (j, b) =
          diversity_pass_inv st'
            (if room then (get_id h.source_completed, count + 1) ∷ counts else counts) hs i' a.1 in
        (j, (a.0, b))

    take_best_inv :
        (n : ℕ) (st : HypothesisStack F S) (h : Hypothesis F S)
        → P h
        → I st.hypos
        → I (take_best fl num_ffs cmp n st h).hypos
    unfolding take_best
    take_best_inv n st h p i =
        if_inv (λ (s : HypothesisStack F S). I s.hypos) _ _ _ (inserted_inv st h p i)
          (inserted_inv st h p i)

    fill_inv :
        (n : ℕ) (st : HypothesisStack F S) (ms : List (Hypothesis F S × Bool))
        → I st.hypos
        → All OfMarked ms
        → I (fill fl num_ffs cmp n st ms).hypos
    unfolding fill
    fill_inv n st [] i a = i
    fill_inv n st ((h, included) ∷ ms) i a =
        let st' = (if included then st else take_best fl num_ffs cmp n st h) in
        let i' : I st'.hypos =
          if_inv (λ (s : HypothesisStack F S). I s.hypos) included st
            (take_best fl num_ffs cmp n st h) i (take_best_inv n st h a.0 i) in
        if_inv (λ (s : HypothesisStack F S). I s.hypos) _ _ _ (fill_inv n st' ms i' a.1) i

    All-marked : (hs : List (Hypothesis F S)) → All P hs → All OfMarked (map (λ h. (h, false)) hs)
    All-marked [] a = tt
    All-marked (h ∷ hs) a = (a.0, All-marked hs a.1)

    refill_inv :
        (st : HypothesisStack F S)
        → I []
        → All P st.hypos
        → I (refill fl num_ffs cmp st).0.hypos × All OfMarked (refill fl num_ffs cmp st).1
    unfolding refill
    refill_inv st i a =
        let a' = All-get_sorted_list fl num_ffs cmp P st.hypos a in
        if_inv
          (λ (r : HypothesisStack F S × List (Hypothesis F S × Bool)).
            I r.0.hypos × All OfMarked r.1)
          _ _ _
          (diversity_pass_inv (record st { hypos = [] }) []
            (get_sorted_list fl num_ffs cmp st.hypos) i a')
          (i, All-marked (get_sorted_list fl num_ffs cmp st.hypos) a')

    -- Pruning rebuilds the set by insertions of hypotheses that were in it.
    pub prune_to_size_inv :
        (st : HypothesisStack F S) (n : ℕ)
        → I []
        → I st.hypos
        → All P st.hypos
        → I (prune_to_size fl num_ffs cmp st n).hypos
    unfolding prune_to_size
    prune_to_size_inv st n none_yet i a =
        let (j, b) = refill_inv st none_yet a in
        if_inv (λ (s : HypothesisStack F S). I s.hypos) _ _ _ i
          (if_inv (λ (s : HypothesisStack F S). I s.hypos) _ _ _
            (fill_inv n (refill fl num_ffs cmp st).0 (refill fl num_ffs cmp st).1 j b) j)
