-- ===== src/Decoder/Stack/Config.antt =====
-- The fields that pruning leaves alone.
use moses.Base.{
  ℕ, ◌+◌, Ordering, ◌≡◌, refl, ◌∙◌, inl, inr, Bool, ◌&&◌, List, [], ◌∷◌, arith, ltb, leb,
  if◌then◌else◌, Bool-cases, length, if_inv,
}
use moses.FutureCost.Float.{Floats}
use moses.Decoder.Hypothesis.{Hypothesis}
use moses.Decoder.Stack.{
  HypothesisStack, find_score, keep_diverse, diversity_pass, take_best, fill, refill, prune_to_size,
}
use moses.Coverage.Bitmap.{get_id}

module _ {F S : Type 0} (fl : Floats F) (num_ffs : ℕ) (cmp : S → S → Ordering) where
  -- `t` has the best score, the limits and the n-best flag of `s`.
  pub record SameLimits (s t : HypothesisStack F S) : Type 0 where
    pub best : t.best_score ≡ s.best_score
    pub max_size : t.max_hypo_stack_size ≡ s.max_hypo_stack_size
    pub diversity : t.min_hypo_stack_diversity ≡ s.min_hypo_stack_diversity
    pub n_best : t.n_best_is_enabled ≡ s.n_best_is_enabled

  SameLimits-refl : (s : HypothesisStack F S) → SameLimits s s
  SameLimits-refl s = record { best = refl; max_size = refl; diversity = refl; n_best = refl }

  SameLimits-trans :
      (s t u : HypothesisStack F S) → SameLimits s t → SameLimits t u → SameLimits s u
  SameLimits-trans s t u p q = record {
    best = q.best ∙ p.best;
    max_size = q.max_size ∙ p.max_size;
    diversity = q.diversity ∙ p.diversity;
    n_best = q.n_best ∙ p.n_best;
  }

  keep_diverse-SameLimits :
      (st : HypothesisStack F S) (h : Hypothesis F S) (count : ℕ)
      → SameLimits st (keep_diverse fl num_ffs cmp st h count)
  unfolding keep_diverse
  keep_diverse-SameLimits st h count = ground arith

  diversity_pass-SameLimits :
      (st : HypothesisStack F S) (counts : List (ℕ × ℕ)) (hs : List (Hypothesis F S))
      → SameLimits st (diversity_pass fl num_ffs cmp st counts hs).0
  unfolding diversity_pass
  diversity_pass-SameLimits st counts [] = SameLimits-refl st
  diversity_pass-SameLimits st counts (h ∷ hs) =
      let count = find_score (get_id h.source_completed) counts 0 in
      let room = ltb count st.min_hypo_stack_diversity in
      let st' = (if room then keep_diverse fl num_ffs cmp st h count else st) in
      let counts' = (if room then (get_id h.source_completed, count + 1) ∷ counts else counts) in
      SameLimits-trans st st' (diversity_pass fl num_ffs cmp st' counts' hs).0
        (if_inv (SameLimits st) room (keep_diverse fl num_ffs cmp st h count) st
          (keep_diverse-SameLimits st h count) (SameLimits-refl st))
        (diversity_pass-SameLimits st' counts' hs)

  take_best-SameLimits :
      (n : ℕ) (st : HypothesisStack F S) (h : Hypothesis F S)
      → SameLimits st (take_best fl num_ffs cmp n st h)
  unfolding take_best
  take_best-SameLimits n st h = ground arith

  fill-SameLimits :
      (n : ℕ) (st : HypothesisStack F S) (ms : List (Hypothesis F S × Bool))
      → SameLimits st (fill fl num_ffs cmp n st ms)
  unfolding fill
  fill-SameLimits n st [] = SameLimits-refl st
  fill-SameLimits n st ((h, included) ∷ ms) =
      let st' = (if included then st else take_best fl num_ffs cmp n st h) in
      if_inv (SameLimits st)
        (ltb (length st.hypos) n && fl.gt h.total_score (fl.add st.best_score st.beam_width))
        (fill fl num_ffs cmp n st' ms) st
        (SameLimits-trans st st' (fill fl num_ffs cmp n st' ms)
          (if_inv (SameLimits st) included st (take_best fl num_ffs cmp n st h) (SameLimits-refl st)
            (take_best-SameLimits n st h))
          (fill-SameLimits n st' ms))
        (SameLimits-refl st)

  refill-SameLimits : (st : HypothesisStack F S) → SameLimits st (refill fl num_ffs cmp st).0
  unfolding refill
  refill-SameLimits st = elim (Bool-cases (ltb 0 st.min_hypo_stack_diversity)) [
    | inl on ↦
        let cleared = record st { hypos = [] } in
        let same : SameLimits st cleared = record {
          best = refl;
          max_size = refl;
          diversity = refl;
          n_best = refl;
        } in
        rw on (
          SameLimits-trans st cleared _ same (
            diversity_pass-SameLimits cleared []
              (moses.Decoder.Stack.get_sorted_list fl num_ffs cmp st.hypos)))
    | inr off ↦ rw off (record { best = refl; max_size = refl; diversity = refl; n_best = refl })
  ]

  pub prune_to_size-SameLimits :
      (st : HypothesisStack F S) (n : ℕ) → SameLimits st (prune_to_size fl num_ffs cmp st n)
  unfolding prune_to_size
  prune_to_size-SameLimits st n =
      let kept = refill fl num_ffs cmp st in
      let first = refill-SameLimits st in
      if_inv (SameLimits st) (leb (length st.hypos) n) st
        (if ltb (length kept.0.hypos) n then fill fl num_ffs cmp n kept.0 kept.1 else kept.0)
        (SameLimits-refl st)
        (if_inv (SameLimits st) (ltb (length kept.0.hypos) n) (fill fl num_ffs cmp n kept.0 kept.1)
          kept.0
          (SameLimits-trans st kept.0 (fill fl num_ffs cmp n kept.0 kept.1) first
            (fill-SameLimits n kept.0 kept.1))
          first)
