-- ===== src/Decoder/Hypothesis/Order.antt =====
-- RecombineCompare is an order by which std::set can sort, if the states' Compare is.
use moses.Base.{ℕ, zero, suc, ◌+◌, Ordering, ◌≡◌, refl, arith}
use moses.Base.StdSet.{flip, IsComparator}
use moses.Coverage.Bitmap.Order.{compare_bitmaps-eq, compare_bitmaps-flip, compare_bitmaps_trans}
use moses.Decoder.Hypothesis.{compare_states, recombine_compare}

module _ {S : Type 0} (num_ffs : ℕ) (cmp : S → S → Ordering) (lawful : IsComparator cmp) where
  states_flip :
      (n i : ℕ) (x y : ℕ → S)
      → compare_states num_ffs cmp n i y x ≡ flip (compare_states num_ffs cmp n i x y)
  unfolding compare_states
  states_flip zero i x y = refl
  states_flip (suc n) i x y = ground (arith, lawful.sides (x i) (y i), states_flip n (i + 1) x y)

  states_trans :
      (n i : ℕ) (x y z : ℕ → S)
      → compare_states num_ffs cmp n i x y ≡ Ordering.lt
      → compare_states num_ffs cmp n i y z ≡ Ordering.lt
      → compare_states num_ffs cmp n i x z ≡ Ordering.lt
  unfolding compare_states
  states_trans zero i x y z p q = cc
  states_trans (suc n) i x y z p q = ground (
    arith,
    lawful.trans (x i) (y i) (z i),
    lawful.alike (x i) (y i) (z i),
    lawful.alike (z i) (y i) (x i),
    lawful.sides (x i) (y i),
    lawful.sides (y i) (z i),
    lawful.sides (x i) (z i),
    states_trans n (i + 1) x y z,
  )

  states_alike :
      (n i : ℕ) (x y z : ℕ → S)
      → compare_states num_ffs cmp n i x y ≡ Ordering.eq
      → compare_states num_ffs cmp n i x z ≡ compare_states num_ffs cmp n i y z
  unfolding compare_states
  states_alike zero i x y z p = refl
  states_alike (suc n) i x y z p =
      ground (arith, lawful.alike (x i) (y i) (z i), states_alike n (i + 1) x y z)

  -- If the comparison of states is a total order up to equality, so is RecombineCompare:
  -- exchanging the sides exchanges the sign, less is transitive, and recombinable hypotheses
  -- compare alike with any third one.
  pub recombine_compare-IsComparator :
      {F : Type 0} → IsComparator (recombine_compare num_ffs cmp {F = F})
  unfolding recombine_compare
  recombine_compare-IsComparator = record {
    sides = λ a b. ground (
      arith,
      compare_bitmaps-flip a.source_completed b.source_completed,
      states_flip num_ffs 0 a.ff_states b.ff_states,
    );
    trans = λ a b c p q. ground (
      arith,
      compare_bitmaps-eq a.source_completed b.source_completed,
      compare_bitmaps-eq b.source_completed c.source_completed,
      compare_bitmaps-eq a.source_completed c.source_completed,
      compare_bitmaps_trans a.source_completed b.source_completed c.source_completed,
      states_trans num_ffs 0 a.ff_states b.ff_states c.ff_states,
    );
    alike = λ a b c p. ground (
      arith,
      compare_bitmaps-eq a.source_completed b.source_completed,
      states_alike num_ffs 0 a.ff_states b.ff_states c.ff_states,
    );
  }
