-- ===== src/Decoder/Stack/Diversity.antt =====
-- AddPrune leaves the diversity bound and the n-best flag as they are.
use moses.Base.{
  ℕ, Ordering, ◌≡◌, ◌∙◌, inl, inr, Bool, true, false, not, ltb, if◌then◌else◌, Option-cases, length,
  if_inv,
}
use moses.Base.StdSet
use moses.FutureCost.Float.{Floats}
use moses.Decoder.Hypothesis.{Hypothesis, add_arc}
use moses.Decoder.Stack.{
  HypothesisStack, Added, returned, aborted, order, note_scores, insert_new, prune_to_size,
  tolerated_size, add, recombine, add_prune, too_bad, insert_asserts, bad_asserts,
}
use moses.Decoder.Stack.Config.{prune_to_size-SameLimits}
use moses.Decoder.Stack.Asserts.{note_scores-diversity, note_scores-n_best}

module _ {F S : Type 0} (fl : Floats F) (num_ffs : ℕ) (cmp : S → S → Ordering) (d : ℕ)
    (n_best : Bool) where
  -- The diversity bound is `d`, and the flag is `n_best`.
  abbrev pub Fixed : HypothesisStack F S → Type 0
  Fixed s = (s.min_hypo_stack_diversity ≡ d) × (s.n_best_is_enabled ≡ n_best)

  -- If the call returned, they are.
  abbrev pub Bounds : Added (HypothesisStack F S) → Type 0
  Bounds (returned s b) = Fixed s
  Bounds aborted = Unit

  insert_new-Fixed :
      (md : ℕ) (st : HypothesisStack F S) (h : Hypothesis F S)
      → Fixed st
      → Fixed (insert_new fl num_ffs cmp md st h)
  unfolding insert_new
  insert_new-Fixed md st h e =
      let grown = record st { hypos = StdSet.insert (order fl num_ffs cmp) h st.hypos } in
      let noted = note_scores fl num_ffs cmp grown h in
      let same = prune_to_size-SameLimits fl num_ffs cmp noted noted.max_hypo_stack_size in
      let div = note_scores-diversity fl num_ffs cmp grown h ∙ e.0 in
      let flag = note_scores-n_best fl num_ffs cmp grown h ∙ e.1 in
      if_inv Fixed (ltb (tolerated_size fl num_ffs cmp md noted) (length noted.hypos))
        (prune_to_size fl num_ffs cmp noted noted.max_hypo_stack_size) noted
        (same.diversity ∙ div, same.n_best ∙ flag) (div, flag)

  -- What follows a call of Add.
  after_add-Bounds :
      (md : ℕ) (st : HypothesisStack F S) (h : Hypothesis F S) (b c : Bool)
      (k : Hypothesis F S → Added (HypothesisStack F S))
      → ((x : Hypothesis F S) → Bounds (k x))
      → Fixed st
      → Bounds (elim (add fl num_ffs cmp md st h) [
        | inl x ↦ k x
        | inr s ↦ if c then returned s b else aborted
      ])
  unfolding add
  after_add-Bounds md st h b c k q e =
      elim (Option-cases (StdSet.find (order fl num_ffs cmp) h st.hypos)) [
        | inl new ↦ rw new (
            if_inv Bounds c (returned (insert_new fl num_ffs cmp md st h) b) aborted
              (insert_new-Fixed md st h e) tt)
        | inr (x, found) ↦ rw found (q x)
      ]

  recombine-Bounds :
      (md : ℕ) (st : HypothesisStack F S) (h existing : Hypothesis F S)
      → Fixed st
      → Bounds (recombine fl num_ffs cmp md st h existing)
  unfolding recombine
  recombine-Bounds md st h existing e =
      if_inv Bounds (fl.gt h.total_score existing.total_score) _ _
        (after_add-Bounds md (record st { hypos = StdSet.erase (order fl num_ffs cmp) h st.hypos })
          (if st.n_best_is_enabled then add_arc h existing else h) false _ (λ x. aborted) (λ x. tt)
          e)
        (if_inv Bounds st.n_best_is_enabled _ _ e e)

  pub add_prune-Bounds :
      (md : ℕ) (st : HypothesisStack F S) (h : Hypothesis F S)
      → Fixed st
      → Bounds (add_prune fl num_ffs cmp md st h)
  unfolding add_prune
  add_prune-Bounds md st h e = if_inv Bounds (not (bad_asserts fl num_ffs cmp st h)) aborted _ tt (
      if_inv Bounds (too_bad fl num_ffs cmp st h) (returned st false) _ e (
        after_add-Bounds md st h true (insert_asserts fl num_ffs cmp md st h)
          (recombine fl num_ffs cmp md st h) (λ x. recombine-Bounds md st h x e) e))
