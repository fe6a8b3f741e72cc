-- ===== src/Decoder/Stack/Kept.antt =====
-- Which hypotheses a pruned stack still holds, and how many.
use moses.Base.{
  ℕ, ◌≤◌, Ordering, ◌≡◌, refl, ◌⊎◌, Bool, false, List, [], ◌∷◌, map, arith, if◌then◌else◌, length,
}
use moses.Base.StdSet
use moses.Base.StdSet.{All, All-insert, All-mem, insert-Sorted, length-insert-le}
use mathlib.Core.List.{Memᴰ}
use mathlib.Core.List.Memᴰ
use moses.FutureCost.Float.{Floats}
use moses.Decoder.Hypothesis.{Hypothesis}
use moses.Decoder.Stack.{
  HypothesisStack, fill, take_best, refill, prune_to_size, get_sorted_list, order,
}
use moses.Decoder.Stack.Sorting.{NotBelow, Differs}
use moses.Decoder.Stack.Pruning.{prune_to_size_inv}

All-of_mem {ℓ κ} :
    {A : Type ℓ} (P : A → Type κ) (xs : List A) → ((a : A) → Memᴰ a xs → P a) → All P xs
All-of_mem P [] f = tt
All-of_mem P (x ∷ xs) f = (f x (Memᴰ.head refl), All-of_mem P xs (λ a m. f a (Memᴰ.tail m)))

module _ {F S : Type 0} (fl : Floats F) (num_ffs : ℕ) (cmp : S → S → Ordering) where
  abbrev Hypo : Type 0
  Hypo = Hypothesis F S

  -- Pruning adds nothing: every hypothesis of the pruned stack was in the stack before.
  pub mem-prune_to_size :
      (st : HypothesisStack F S) (n : ℕ) (h : Hypo)
      → Memᴰ h (prune_to_size fl num_ffs cmp st n).hypos
      → Memᴰ h st.hypos
  mem-prune_to_size st n h m =
      let Old = λ (k : Hypo). Memᴰ k st.hypos in
      let old = All-of_mem Old st.hypos (λ a k. k) in
      All-mem Old (prune_to_size fl num_ffs cmp st n).hypos h
        (prune_to_size_inv fl num_ffs cmp Old (All Old)
          (λ k xs p i. All-insert (order fl num_ffs cmp) Old k xs p i) st n tt old old)
        m

  fill-length :
      (n : ℕ) (st : HypothesisStack F S) (ms : List (Hypo × Bool))
      → length st.hypos ≤ n
      → length (fill fl num_ffs cmp n st ms).hypos ≤ n
  unfolding fill take_best
  fill-length n st [] h = h
  fill-length n st ((k, included) ∷ ms) h = ground (
    arith,
    length-insert-le (order fl num_ffs cmp) k st.hypos,
    fill-length n (if included then st else take_best fl num_ffs cmp n st k) ms,
  )

  -- Without a diversity bound, pruning leaves at most `n` hypotheses.
  pub length-prune_to_size :
      (st : HypothesisStack F S) (n : ℕ)
      → st.min_hypo_stack_diversity ≡ 0
      → length (prune_to_size fl num_ffs cmp st n).hypos ≤ n
  unfolding prune_to_size refill
  length-prune_to_size st n d = ground (
    arith,
    fill-length n (record st { hypos = [] })
        (map (λ h. (h, false)) (get_sorted_list fl num_ffs cmp st.hypos)) (omega arith),
  )

  abbrev fresh_marks : List Hypo → List (Hypo × Bool)
  fresh_marks hs = map (λ h. (h, false)) hs

  -- `h` may follow all the hypotheses in `ks`: it is not better than any and equivalent to none.
  abbrev Follows : List Hypo → Hypo → Type 0
  Follows ks h = All (λ k. NotBelow fl num_ffs cmp k h × Differs fl num_ffs cmp h k) ks

  -- `m` is in the stack, or is not better than anything in it.
  abbrev pub KeptOrBeaten : Hypo → HypothesisStack F S → Type 0
  KeptOrBeaten m r = Memᴰ m r.hypos ⊎ All (λ k. NotBelow fl num_ffs cmp k m) r.hypos
