-- ===== src/Decoder/Stack/Asserts.antt =====
-- When the assertions of GetID hold in AddPrune and PruneToSize, and the diversity bound, which
-- both leave alone.
use moses.Base.{
  ℕ, Ordering, ◌≡◌, refl, ◌∙◌, ◌⊎◌, inl, inr, true, List, [], ◌∷◌, arith, if◌then◌else◌, if_inv,
}
use moses.Base.StdSet
use moses.Base.StdSet.{All, All-insert, All-erase}
use moses.FutureCost.Float.{Floats}
use moses.Decoder.Hypothesis.{Hypothesis, add_arc}
use moses.Decoder.Stack.{
  HypothesisStack, order, note_scores, has_id, all_have_ids, prune_asserts, insert_asserts,
  bad_asserts,
}

module _ {F S : Type 0} (fl : Floats F) (num_ffs : ℕ) (cmp : S → S → Ordering) where
  -- No diversity bound is set, or GetID may be called on each of the hypotheses.
  abbrev pub HaveIds : HypothesisStack F S → List (Hypothesis F S) → Type 0
  HaveIds st hs = (st.min_hypo_stack_diversity ≡ 0) ⊎ All (λ h. has_id fl num_ffs cmp h ≡ true) hs

  pub HaveIds-first :
      (st : HypothesisStack F S) (h : Hypothesis F S)
      → HaveIds st (h ∷ st.hypos)
      → HaveIds st (h ∷ [])
  HaveIds-first st h (inl off) = inl off
  HaveIds-first st h (inr a) = inr (a.0, tt)

  all_have_ids-true :
      (hs : List (Hypothesis F S))
      → All (λ h. has_id fl num_ffs cmp h ≡ true) hs
      → all_have_ids fl num_ffs cmp hs ≡ true
  unfolding all_have_ids
  all_have_ids-true [] a = refl
  all_have_ids-true (h ∷ hs) a = rw a.0 (all_have_ids-true hs a.1)

  pub prune_asserts-true :
      (st : HypothesisStack F S) (n : ℕ)
      → HaveIds st st.hypos
      → prune_asserts fl num_ffs cmp st n ≡ true
  unfolding prune_asserts
  prune_asserts-true st n (inl off) = ground (arith, off)
  prune_asserts-true st n (inr a) = ground (arith, all_have_ids-true st.hypos a)

  pub bad_asserts-true :
      (st : HypothesisStack F S) (h : Hypothesis F S)
      → HaveIds st (h ∷ [])
      → bad_asserts fl num_ffs cmp st h ≡ true
  bad_asserts-true st h (inl off) = ground (arith, off)
  bad_asserts-true st h (inr a) = ground (arith, a.0)

  note_scores-hypos :
      (st : HypothesisStack F S) (h : Hypothesis F S)
      → (note_scores fl num_ffs cmp st h).hypos ≡ st.hypos
  unfolding note_scores
  note_scores-hypos st h = ground arith

  pub note_scores-diversity :
      (st : HypothesisStack F S) (h : Hypothesis F S)
      → (note_scores fl num_ffs cmp st h).min_hypo_stack_diversity ≡ st.min_hypo_stack_diversity
  unfolding note_scores
  note_scores-diversity st h = ground arith

  pub note_scores-n_best :
      (st : HypothesisStack F S) (h : Hypothesis F S)
      → (note_scores fl num_ffs cmp st h).n_best_is_enabled ≡ st.n_best_is_enabled
  unfolding note_scores
  note_scores-n_best st h = ground arith

  noted-HaveIds :
      (st : HypothesisStack F S) (h : Hypothesis F S)
      → HaveIds st (h ∷ st.hypos)
      → (let grown = record st { hypos = StdSet.insert (order fl num_ffs cmp) h st.hypos } in
          let noted = note_scores fl num_ffs cmp grown h in HaveIds noted noted.hypos)
  noted-HaveIds st h ids =
      let o = order fl num_ffs cmp in
      let grown = record st { hypos = StdSet.insert o h st.hypos } in
      elim ids [
        | inl off ↦ inl (note_scores-diversity grown h ∙ off)
        | inr a ↦ inr (
            rw (note_scores-hypos grown h)
              (All-insert o (λ k. has_id fl num_ffs cmp k ≡ true) h st.hypos a.0 a.1))
      ]

  pub insert_asserts-true :
      (md : ℕ) (st : HypothesisStack F S) (h : Hypothesis F S)
      → HaveIds st (h ∷ st.hypos)
      → insert_asserts fl num_ffs cmp md st h ≡ true
  unfolding insert_asserts
  insert_asserts-true md st h ids =
      let o = order fl num_ffs cmp in
      let grown = record st { hypos = StdSet.insert o h st.hypos } in
      let noted = note_scores fl num_ffs cmp grown h in
      let pruned = prune_asserts-true noted noted.max_hypo_stack_size (noted-HaveIds st h ids) in
      elim ids [ inl off ↦ ground (arith, off, pruned) | inr a ↦ ground (arith, a.0, pruned) ]

  -- The hypothesis that replaces an equivalent one.
  pub winner_asserts-true :
      (md : ℕ) (st : HypothesisStack F S) (h existing : Hypothesis F S)
      → HaveIds st (h ∷ st.hypos)
      → insert_asserts fl num_ffs cmp md
          (record st { hypos = StdSet.erase (order fl num_ffs cmp) h st.hypos })
          (if st.n_best_is_enabled then add_arc h existing else h)
        ≡ true
  unfolding add_arc
  winner_asserts-true md st h existing ids =
      let o = order fl num_ffs cmp in
      let Known = λ (k : Hypothesis F S). has_id fl num_ffs cmp k ≡ true in
      insert_asserts-true md (record st { hypos = StdSet.erase o h st.hypos })
        (if st.n_best_is_enabled then add_arc h existing else h)
        (elim ids [
          | inl off ↦ inl off
          | inr a ↦ inr (
            if_inv Known st.n_best_is_enabled (add_arc h existing) h a.0 a.0,
            All-erase o Known h st.hypos a.1,
          )
        ])
