-- ===== src/Decoder/Stack/Invariant.antt =====
-- AddPrune: it never aborts, and it keeps the stack's invariant.
use moses.Base.{
  ℕ, ◌*◌, ◌^◌, ◌≤◌, ◌<◌, Ordering, ◌≡◌, ◌⊎◌, inl, inr, Bool, false, arith, ltb, Bool-cases, length,
  sub64,
}
use moses.Base.StdSet
use moses.Base.StdSet.{
  All, All-map, Sorted, IsComparator, All-insert, All-erase, insert-Sorted, erase-Sorted, find-eq,
  find-erase, length-insert-le, length-erase-le,
}
use moses.FutureCost.Float.{Floats, IsOrdered}
use moses.Decoder.Hypothesis.{Hypothesis}
use moses.Decoder.Hypothesis.Order.{recombine_compare-IsComparator}
use moses.Decoder.Stack.{
  HypothesisStack, order, note_scores, insert_new, prune_to_size, tolerated_size, new_stack,
  set_max_hypo_stack_size, set_beam_width,
}
use moses.Decoder.Stack.Pruning.{prune_to_size_inv}
use moses.Decoder.Stack.Kept.{length-prune_to_size}
use moses.Decoder.Stack.Config.{prune_to_size-SameLimits}

module _ {F S : Type 0} (fl : Floats F) (num_ffs : ℕ) (cmp : S → S → Ordering) where
  abbrev Stack : Type 0
  Stack = HypothesisStack F S

  -- No two hypotheses are recombinable and none is better than the best score.
  pub record IsSound (st : Stack) : Type 0 where
    pub sorted : Sorted (order fl num_ffs cmp) st.hypos
    pub bounded : All (λ h. fl.gt h.total_score st.best_score ≡ false) st.hypos
    pub limit : st.max_hypo_stack_size < 9223372036854775808

  -- A sound stack that holds, without a diversity bound, at most 2 * stack size - 1 hypotheses.
  pub record IsValid (st : Stack) : Type 0 where
    pub sound : IsSound st
    pub fits :
        (0 < st.min_hypo_stack_diversity) ⊎ (length st.hypos ≤ sub64 (2 * st.max_hypo_stack_size) 1)

  module _ (ordered : IsOrdered fl) (lawful : IsComparator cmp) where
    pub by_order : IsComparator (order fl num_ffs cmp)
    by_order = recombine_compare-IsComparator num_ffs cmp lawful

    prune_to_size-IsValid :
        (st : Stack) → IsSound st → IsValid (prune_to_size fl num_ffs cmp st st.max_hypo_stack_size)
    prune_to_size-IsValid st v =
        let n = st.max_hypo_stack_size in
        let same = prune_to_size-SameLimits fl num_ffs cmp st n in
        let Below = λ (h : Hypothesis F S). fl.gt h.total_score st.best_score ≡ false in
        record {
          sound = record {
            sorted =
                prune_to_size_inv fl num_ffs cmp Below (Sorted (order fl num_ffs cmp))
                  (λ h xs p i. insert-Sorted (order fl num_ffs cmp) by_order h xs i) st n tt
                  v.sorted v.bounded;
            bounded = rw same.best (
                prune_to_size_inv fl num_ffs cmp Below (All Below)
                  (λ h xs p i. All-insert (order fl num_ffs cmp) Below h xs p i) st n tt v.bounded
                  v.bounded);
            limit = omega (arith, same.max_size, v.limit);
          };
          fits = elim (Bool-cases (ltb 0 st.min_hypo_stack_diversity)) [
            | inl on ↦ inl (ground (arith, same.diversity))
            | inr off ↦ inr (
                omega (
                  arith,
                  same.max_size,
                  v.limit,
                  length-prune_to_size fl num_ffs cmp st n (ground arith),
                ))
          ];
        }

    -- What Add records of an inserted hypothesis.
    record Noted (st : Stack) (h : Hypothesis F S) (t : Stack) : Type 0 where
      hypos : t.hypos ≡ st.hypos
      max_size : t.max_hypo_stack_size ≡ st.max_hypo_stack_size
      diversity : t.min_hypo_stack_diversity ≡ st.min_hypo_stack_diversity
      own : fl.gt h.total_score t.best_score ≡ false
      raised : fl.gt st.best_score t.best_score ≡ false

    note_scores-Noted :
        (st : Stack) (h : Hypothesis F S) → Noted st h (note_scores fl num_ffs cmp st h)
    unfolding note_scores
    note_scores-Noted st h = ground (
      arith,
      ordered.asym h.total_score h.total_score,
      ordered.asym st.best_score st.best_score,
      ordered.asym h.total_score st.best_score,
    )

    -- Without a diversity bound the tolerated size is twice the stack size less one.
    no_extra :
        (t : Stack) (md : ℕ)
        → t.min_hypo_stack_diversity ≡ 0
        → ltb (tolerated_size fl num_ffs cmp md t) (length t.hypos) ≡ false
        → length t.hypos ≤ sub64 (2 * t.max_hypo_stack_size) 1
    no_extra t md d room =
        let z : t.min_hypo_stack_diversity * 2 ^ md ≡ 0 = rw d (omega arith) in ground arith

    pub insert_new-IsValid :
        (md : ℕ) (st : Stack) (h : Hypothesis F S)
        → IsSound st
        → IsValid (insert_new fl num_ffs cmp md st h)
    unfolding insert_new
    insert_new-IsValid md st h v =
        let grown = record st { hypos = StdSet.insert (order fl num_ffs cmp) h st.hypos } in
        let t = note_scores fl num_ffs cmp grown h in
        let n = note_scores-Noted grown h in
        let sound : IsSound t = record {
          sorted = rw n.hypos (insert-Sorted (order fl num_ffs cmp) by_order h st.hypos v.sorted);
          bounded = rw n.hypos (
              All-insert (order fl num_ffs cmp) (λ k. fl.gt k.total_score t.best_score ≡ false) h
                st.hypos n.own
                (All-map (λ k. fl.gt k.total_score st.best_score ≡ false)
                  (λ k. fl.gt k.total_score t.best_score ≡ false) st.hypos
                  (λ k q. ordered.negtrans k.total_score st.best_score t.best_score q n.raised)
                  v.bounded));
          limit = omega (arith, n.max_size, v.limit);
        } in
        elim (Bool-cases (ltb (tolerated_size fl num_ffs cmp md t) (length t.hypos))) [
          | inl over ↦ rw over (prune_to_size-IsValid t sound)
          | inr room ↦ rw room (record {
            sound = sound;
            fits = elim (Bool-cases (ltb 0 t.min_hypo_stack_diversity)) [
              | inl on ↦ inl (ground arith)
              | inr off ↦ inr (no_extra t md (ground arith) room)
            ];
          })
        ]

    pub without-IsSound :
        (st : Stack) (h : Hypothesis F S)
        → IsSound st
        → IsSound (record st { hypos = StdSet.erase (order fl num_ffs cmp) h st.hypos })
    without-IsSound st h v = record {
      sorted = erase-Sorted (order fl num_ffs cmp) by_order h st.hypos v.sorted;
      bounded =
          All-erase (order fl num_ffs cmp) (λ k. fl.gt k.total_score st.best_score ≡ false) h
            st.hypos v.bounded;
      limit = v.limit;
    }

  -- As SearchNormal makes a stack, it is valid for a stack size below 2^63, whatever the fields
  -- that the constructor leaves unset hold.
  pub new_stack-IsValid :
      (n_best : Bool) (unset_beam beam : F) (unset_size unset_diversity size diversity : ℕ)
      → size < 9223372036854775808
      → IsValid (
          set_beam_width fl num_ffs cmp
            (set_max_hypo_stack_size fl num_ffs cmp
              (new_stack fl num_ffs cmp n_best unset_beam unset_size unset_diversity)
              size
              diversity)
            beam)
  unfolding new_stack set_max_hypo_stack_size set_beam_width
  new_stack-IsValid n_best unset_beam beam unset_size unset_diversity size diversity h = record {
    sound = record { sorted = tt; bounded = tt; limit = h };
    fits = inr (omega arith);
  }
