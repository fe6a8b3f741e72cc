-- ===== src/Decoder/Stack/AddPrune.antt =====
-- AddPrune: it never reaches abort(), it keeps the invariant, and recombination keeps the better
-- of two equivalent hypotheses.
use moses.Base.{
  ℕ, Ordering, ◌≡◌, inl, inr, Bool, true, false, some, ◌∷◌, arith, if◌then◌else◌, Bool-cases,
  Option-cases, if_inv,
}
use moses.Base.StdSet
use moses.Base.StdSet.{
  All, Sorted, IsComparator, All-insert, insert-Sorted, erase-Sorted, find-All, find-eq, find-erase,
  length-insert-le, length-erase, comparator_refl,
}
use moses.FutureCost.Float.{Floats, IsOrdered}
use moses.Decoder.Hypothesis.{Hypothesis, add_arc, recombine_compare}
use moses.Decoder.Stack.{
  HypothesisStack, Added, returned, aborted, order, insert_new, add, recombine, add_prune, too_bad,
}
use moses.Decoder.Stack.Asserts.{
  HaveIds, bad_asserts-true, insert_asserts-true, winner_asserts-true, HaveIds-first,
}
use moses.Decoder.Stack.Invariant.{IsValid, by_order, insert_new-IsValid, without-IsSound}

-- The call returned, and `Q` holds of the stack.
abbrev pub Returns :
    {F S : Type 0} → (HypothesisStack F S → Type 0) → Added (HypothesisStack F S) → Type 0
Returns Q (returned st r) = Q st
Returns Q aborted = ⊥

module _ {F S : Type 0} (fl : Floats F) (num_ffs : ℕ) (cmp : S → S → Ordering)
    (ordered : IsOrdered fl) (lawful : IsComparator cmp) where
  abbrev Valid : HypothesisStack F S → Type 0
  Valid = IsValid fl num_ffs cmp

  abbrev comparator : IsComparator (order fl num_ffs cmp)
  comparator = by_order fl num_ffs cmp ordered lawful

  -- Arcs do not count in the order.
  winner_alike :
      (b : Bool) (h existing : Hypothesis F S)
      → order fl num_ffs cmp (if b then add_arc h existing else h) h ≡ Ordering.eq
  unfolding add_arc recombine_compare
  winner_alike true h existing = comparator_refl (order fl num_ffs cmp) comparator h
  winner_alike false h existing = comparator_refl (order fl num_ffs cmp) comparator h

  -- After the loser is erased the winner has no equivalent, so the second Add inserts it.
  add_winner :
      (md : ℕ) (st : HypothesisStack F S) (h existing : Hypothesis F S)
      → Sorted (order fl num_ffs cmp) st.hypos
      → add fl num_ffs cmp md
          (record st { hypos = StdSet.erase (order fl num_ffs cmp) h st.hypos })
          (if st.n_best_is_enabled then add_arc h existing else h)
        ≡ inr (
            insert_new fl num_ffs cmp md
              (record st { hypos = StdSet.erase (order fl num_ffs cmp) h st.hypos })
              (if st.n_best_is_enabled then add_arc h existing else h))
  unfolding add
  add_winner md st h existing s =
      let winner = (if st.n_best_is_enabled then add_arc h existing else h) in
      let gone =
        find-erase (order fl num_ffs cmp) comparator winner h st.hypos s
          (winner_alike st.n_best_is_enabled h existing) in
      rw (gone, add)

  existing_kept :
      (st : HypothesisStack F S) (h existing : Hypothesis F S)
      → Valid st
      → StdSet.find (order fl num_ffs cmp) h st.hypos ≡ some existing
      → Valid (record st {
        hypos =
            StdSet.insert
              (order fl num_ffs cmp)
              (add_arc existing h)
              (StdSet.erase (order fl num_ffs cmp) h st.hypos);
      })
  unfolding add_arc
  existing_kept st h existing v found =
      let o = order fl num_ffs cmp in
      let rest = without-IsSound fl num_ffs cmp ordered lawful st h v.sound in
      let left = StdSet.erase o h st.hypos in
      record {
        sound = record {
          sorted = insert-Sorted o comparator (add_arc existing h) left rest.sorted;
          bounded =
              All-insert o (λ k. fl.gt k.total_score st.best_score ≡ false) (add_arc existing h)
                left
                (find-All o (λ k. fl.gt k.total_score st.best_score ≡ false) h st.hypos
                  v.sound.bounded found)
                rest.bounded;
          limit = v.sound.limit;
        };
        fits = elim v.fits [
          | inl on ↦ inl on
          | inr room ↦ inr (
              omega (
                arith,
                length-insert-le o (add_arc existing h) left,
                length-erase o h st.hypos {e = existing} found,
              ))
        ];
      }

  recombine-IsValid :
      (md : ℕ) (st : HypothesisStack F S) (h existing : Hypothesis F S)
      → Valid st
      → HaveIds fl num_ffs cmp st (h ∷ st.hypos)
      → StdSet.find (order fl num_ffs cmp) h st.hypos ≡ some existing
      → Returns Valid (recombine fl num_ffs cmp md st h existing)
  unfolding recombine
  recombine-IsValid md st h existing v ids found =
      elim (Bool-cases (fl.gt h.total_score existing.total_score)) [
        | inl better ↦
            rw
              (
                better,
                add_winner md st h existing v.sound.sorted,
                winner_asserts-true fl num_ffs cmp md st h existing ids,
              )
              (insert_new-IsValid fl num_ffs cmp ordered lawful md
                (record st { hypos = StdSet.erase (order fl num_ffs cmp) h st.hypos })
                (if st.n_best_is_enabled then add_arc h existing else h)
                (without-IsSound fl num_ffs cmp ordered lawful st h v.sound))
        | inr worse ↦ rw worse (
            if_inv (Returns Valid) st.n_best_is_enabled
              (returned
                (record st {
                  hypos =
                      StdSet.insert (order fl num_ffs cmp) (add_arc existing h)
                        (StdSet.erase (order fl num_ffs cmp) h st.hypos);
                })
                false)
              (returned st false) (existing_kept st h existing v found) v)
      ]

  -- For scores without NaN and a comparison of states that is a total order up to equality, on a
  -- valid stack, if no diversity bound is set, or if the coverage of the new hypothesis and of
  -- those of the stack passes the assertions of GetID: AddPrune returns, neither by abort() nor by
  -- a failed assertion, and the stack stays valid: no two of its hypotheses are recombinable, none
  -- is better than the best score, the stack size is below 2^63, and either a diversity bound is
  -- set or there are at most 2 * stack size - 1 hypotheses, on size_t.
  pub add_prune-IsValid :
      (md : ℕ) (st : HypothesisStack F S) (h : Hypothesis F S)
      → Valid st
      → HaveIds fl num_ffs cmp st (h ∷ st.hypos)
      → Returns Valid (add_prune fl num_ffs cmp md st h)
  unfolding add_prune add
  add_prune-IsValid md st h v ids =
      let known = bad_asserts-true fl num_ffs cmp st h (HaveIds-first fl num_ffs cmp st h ids) in
      let inside = insert_asserts-true fl num_ffs cmp md st h ids in
      elim (Bool-cases (too_bad fl num_ffs cmp st h)) [
        | inl bad ↦ rw (known, bad) v
        | inr good ↦ elim (Option-cases (StdSet.find (order fl num_ffs cmp) h st.hypos)) [
          | inl new ↦
              rw (known, good, new, inside)
                (insert_new-IsValid fl num_ffs cmp ordered lawful md st h v.sound)
          | inr (existing, found) ↦
              rw (known, good, found) (recombine-IsValid md st h existing v ids found)
        ]
      ]
