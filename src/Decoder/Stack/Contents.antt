-- ===== src/Decoder/Stack/Contents.antt =====
-- What the operations on stacks keep: the stack's invariant, and whatever holds of the hypotheses
-- but for their arcs.
use moses.Base.{
  ℕ, ◌≤◌, Ordering, ◌≡◌, refl, sym, inl, inr, true, false, not, ◌∷◌, arith, ltb, leb, if◌then◌else◌,
  Bool-cases, Option-cases, length, if_inv,
}
use moses.Base.StdSet
use moses.Base.StdSet.{All, Sorted, All-insert, All-erase, find-All, IsComparator, insert-Sorted}
use moses.FutureCost.Float.{Floats, IsOrdered}
use moses.Decoder.Hypothesis.{Core, Hypothesis, add_arc}
use moses.Decoder.Stack.{
  HypothesisStack, Added, returned, order, note_scores, insert_new, prune_to_size, tolerated_size,
  add, recombine, add_prune, too_bad, insert_asserts, bad_asserts,
}
use moses.Decoder.Stack.Pruning.{prune_to_size_inv}
use moses.Decoder.Stack.Config.{prune_to_size-SameLimits}
use moses.Decoder.Stack.Kept.{length-prune_to_size}
use moses.Decoder.Stack.Invariant.{IsValid, by_order}
use moses.Decoder.Stack.Asserts.{HaveIds}
use moses.Decoder.Stack.Diversity.{Fixed, Bounds, add_prune-Bounds}
use moses.Decoder.Stack.AddPrune.{Returns, add_prune-IsValid}
use mathlib.Core.Path.{subst}

module _ {F S : Type 0} (fl : Floats F) (num_ffs : ℕ) (cmp : S → S → Ordering)
    (P : Core F S → Type 0) where
  -- `P` holds of every hypothesis of the stack.
  abbrev pub OfAll : HypothesisStack F S → Type 0
  OfAll st = All (λ h. P h.core) st.hypos

  -- If the call returned, `P` holds of every hypothesis of the stack.
  abbrev OfResult : Added (HypothesisStack F S) → Type 0
  OfResult (returned st r) = OfAll st
  OfResult Added.aborted = Unit

  pub prune_to_size-OfAll :
      (st : HypothesisStack F S) (n : ℕ) → OfAll st → OfAll (prune_to_size fl num_ffs cmp st n)
  prune_to_size-OfAll st n a =
      prune_to_size_inv fl num_ffs cmp (λ h. P h.core) (All (λ h. P h.core))
        (λ k xs p i. All-insert (order fl num_ffs cmp) (λ h. P h.core) k xs p i) st n tt a a

  note_scores-hypos :
      (st : HypothesisStack F S) (h : Hypothesis F S)
      → (note_scores fl num_ffs cmp st h).hypos ≡ st.hypos
  unfolding note_scores
  note_scores-hypos st h = ground arith

  insert_new-OfAll :
      (md : ℕ) (st : HypothesisStack F S) (h : Hypothesis F S)
      → OfAll st
      → P h.core
      → OfAll (insert_new fl num_ffs cmp md st h)
  unfolding insert_new
  insert_new-OfAll md st h a p =
      let o = order fl num_ffs cmp in
      let grown = record st { hypos = StdSet.insert o h st.hypos } in
      let noted = note_scores fl num_ffs cmp grown h in
      let all : OfAll noted =
        subst (All (λ k. P k.core)) (sym (note_scores-hypos grown h))
          (All-insert o (λ k. P k.core) h st.hypos p a) in
      if_inv OfAll (ltb (tolerated_size fl num_ffs cmp md noted) (length noted.hypos))
        (prune_to_size fl num_ffs cmp noted noted.max_hypo_stack_size) noted
        (prune_to_size-OfAll noted noted.max_hypo_stack_size all) all

  add-OfAll :
      (md : ℕ) (st : HypothesisStack F S) (h : Hypothesis F S)
      → OfAll st
      → P h.core
      → OfResult (elim (add fl num_ffs cmp md st h) [
        | inl _ ↦ Added.aborted
        | inr st' ↦
            if insert_asserts fl num_ffs cmp md st h then returned st' false else Added.aborted
      ])
  unfolding add
  add-OfAll md st h a p = elim (Option-cases (StdSet.find (order fl num_ffs cmp) h st.hypos)) [
    | inl new ↦ rw new (
        if_inv OfResult (insert_asserts fl num_ffs cmp md st h)
          (returned (insert_new fl num_ffs cmp md st h) false) Added.aborted
          (insert_new-OfAll md st h a p) tt)
    | inr (existing, found) ↦ rw found tt
  ]

  recombine-OfAll :
      (md : ℕ) (st : HypothesisStack F S) (h existing : Hypothesis F S)
      → OfAll st
      → P h.core
      → P existing.core
      → OfResult (recombine fl num_ffs cmp md st h existing)
  unfolding recombine add_arc
  recombine-OfAll md st h existing a p q =
      let o = order fl num_ffs cmp in
      let left = All-erase o (λ k. P k.core) h st.hypos a in
      let winner = (if st.n_best_is_enabled then add_arc h existing else h) in
      let won : P winner.core =
        if_inv (λ (k : Hypothesis F S). P k.core) st.n_best_is_enabled (add_arc h existing) h p p in
      if_inv OfResult (fl.gt h.total_score existing.total_score) _ _
        (add-OfAll md (record st { hypos = StdSet.erase o h st.hypos }) winner left won)
        (if_inv OfResult st.n_best_is_enabled _ _
          (All-insert o (λ k. P k.core) (add_arc existing h) (StdSet.erase o h st.hypos) q left) a)

  add_prune-OfResult :
      (md : ℕ) (st : HypothesisStack F S) (h : Hypothesis F S)
      → OfAll st
      → P h.core
      → OfResult (add_prune fl num_ffs cmp md st h)
  unfolding add_prune add
  add_prune-OfResult md st h a p =
      if_inv OfResult (not (bad_asserts fl num_ffs cmp st h)) Added.aborted _ tt (
        if_inv OfResult (too_bad fl num_ffs cmp st h) (returned st false) _ a
          (elim (Option-cases (StdSet.find (order fl num_ffs cmp) h st.hypos)) [
            | inl new ↦ rw new (
                if_inv OfResult (insert_asserts fl num_ffs cmp md st h)
                  (returned (insert_new fl num_ffs cmp md st h) true) Added.aborted
                  (insert_new-OfAll md st h a p) tt)
            | inr (existing, found) ↦ rw found (
                recombine-OfAll md st h existing a p
                  (find-All (order fl num_ffs cmp) (λ k. P k.core) h st.hypos a found))
          ]))

  -- A valid stack with the diversity bound and the n-best flag of `st`, of whose hypotheses `P`
  -- holds.
  abbrev pub Kept : HypothesisStack F S → HypothesisStack F S → Type 0
  Kept st s =
      IsValid fl num_ffs cmp s
      × OfAll s
      × Fixed fl num_ffs cmp st.min_hypo_stack_diversity st.n_best_is_enabled s

  all_three :
      (st : HypothesisStack F S) (r : Added (HypothesisStack F S))
      → Returns (IsValid fl num_ffs cmp) r
      → OfResult r
      → Bounds fl num_ffs cmp st.min_hypo_stack_diversity st.n_best_is_enabled r
      → Returns (Kept st) r
  all_three st (returned s b) v a e = (v, a, e)
  all_three st Added.aborted v a e = v

  module _ (ordered : IsOrdered fl) (lawful : IsComparator cmp) where
    -- AddPrune returns a valid stack, of whose hypotheses holds what held before and holds of the
    -- new one, under the conditions of add_prune-IsValid.
    pub add_prune-OfAll :
        (md : ℕ) (st : HypothesisStack F S) (h : Hypothesis F S)
        → IsValid fl num_ffs cmp st
        → OfAll st
        → P h.core
        → HaveIds fl num_ffs cmp st (h ∷ st.hypos)
        → Returns (Kept st) (add_prune fl num_ffs cmp md st h)
    add_prune-OfAll md st h v a p ids =
        all_three st (add_prune fl num_ffs cmp md st h)
          (add_prune-IsValid fl num_ffs cmp ordered lawful md st h v ids)
          (add_prune-OfResult md st h a p)
          (add_prune-Bounds fl num_ffs cmp st.min_hypo_stack_diversity st.n_best_is_enabled md st h
            (refl, refl))

module _ {F S : Type 0} (fl : Floats F) (num_ffs : ℕ) (cmp : S → S → Ordering)
    (ordered : IsOrdered fl) (lawful : IsComparator cmp) where
  prune_to_size-small :
      (st : HypothesisStack F S) (n : ℕ)
      → leb (length st.hypos) n ≡ true
      → prune_to_size fl num_ffs cmp st n ≡ st
  unfolding prune_to_size
  prune_to_size-small st n h = rw (h, prune_to_size)

  -- Without a diversity bound, pruning makes no stack longer.
  prune_to_size-shrinks :
      (st : HypothesisStack F S) (n : ℕ)
      → st.min_hypo_stack_diversity ≡ 0
      → length (prune_to_size fl num_ffs cmp st n).hypos ≤ length st.hypos
  prune_to_size-shrinks st n d = elim (Bool-cases (leb (length st.hypos) n)) [
    | inl small ↦ rw (prune_to_size-small st n small) (omega arith)
    | inr large ↦ ground (arith, length-prune_to_size fl num_ffs cmp st n d)
  ]

  -- A pruning to any size keeps a stack valid.
  pub prune_to_size-keeps :
      (st : HypothesisStack F S) (n : ℕ)
      → IsValid fl num_ffs cmp st
      → IsValid fl num_ffs cmp (prune_to_size fl num_ffs cmp st n)
  prune_to_size-keeps st n v =
      let same = prune_to_size-SameLimits fl num_ffs cmp st n in
      let Below = λ (h : Hypothesis F S). fl.gt h.total_score st.best_score ≡ false in
      record {
        sound = record {
          sorted =
              prune_to_size_inv fl num_ffs cmp Below (Sorted (order fl num_ffs cmp))
                (λ h xs p i.
                  insert-Sorted (order fl num_ffs cmp) (by_order fl num_ffs cmp ordered lawful) h xs
                    i)
                st n tt v.sound.sorted v.sound.bounded;
          bounded = rw same.best (
              prune_to_size_inv fl num_ffs cmp Below (All Below)
                (λ h xs p i. All-insert (order fl num_ffs cmp) Below h xs p i) st n tt
                v.sound.bounded v.sound.bounded);
          limit = omega (arith, same.max_size, v.sound.limit);
        };
        fits = elim v.fits [
          | inl on ↦ inl (omega (arith, same.diversity))
          | inr room ↦ elim (Bool-cases (ltb 0 st.min_hypo_stack_diversity)) [
            | inl on ↦ inl (ground (arith, same.diversity))
            | inr off ↦
                inr (omega (arith, same.max_size, room, prune_to_size-shrinks st n (ground arith)))
          ]
        ];
      }
