-- ===== src/Decoder/Stack/Best.antt =====
-- The best hypothesis of a stack, from which the translation is read off.
use moses.Base.{
  ℕ, Ordering, ◌≡◌, refl, ◌⊎◌, inl, inr, false, Option, none, some, List, [], ◌∷◌, arith,
  if◌then◌else◌, Bool-cases,
}
use moses.Base.StdSet.{All}
use mathlib.Core.List.{Memᴰ}
use mathlib.Core.List.Memᴰ
use moses.FutureCost.Float.{Floats, IsOrdered}
use moses.Decoder.Hypothesis.{Hypothesis}
use moses.Decoder.Stack.{HypothesisStack, best_of, get_best_hypothesis}

module _ {F S : Type 0} (fl : Floats F) (num_ffs : ℕ) (cmp : S → S → Ordering) where
  -- No hypothesis of the list is better than `w`.
  abbrev pub Unbeaten : Hypothesis F S → List (Hypothesis F S) → Type 0
  Unbeaten w hs = All (λ k. fl.gt k.total_score w.total_score ≡ false) hs

  abbrev step : Hypothesis F S → Hypothesis F S → Hypothesis F S
  step best h = if fl.gt h.total_score best.total_score then h else best

  module _ (ordered : IsOrdered fl) where
    irrefl : (a : F) → fl.gt a a ≡ false
    irrefl a = ground (arith, ordered.asym a a)

    -- What nothing beats so far is not better than the result of the rest of the loop.
    best_of_bounds :
        (best : Hypothesis F S) (hs : List (Hypothesis F S))
        → (fl.gt best.total_score (best_of fl num_ffs cmp best hs).total_score ≡ false)
          × Unbeaten (best_of fl num_ffs cmp best hs) hs
    unfolding best_of
    best_of_bounds best [] = (irrefl best.total_score, tt)
    best_of_bounds best (h ∷ hs) =
        let next = step best h in
        let (top, rest) = best_of_bounds next hs in
        let w = best_of fl num_ffs cmp next hs in
        let old : fl.gt best.total_score next.total_score ≡ false =
          ground (arith, irrefl best.total_score, ordered.asym h.total_score best.total_score) in
        let new : fl.gt h.total_score next.total_score ≡ false =
          ground (arith, irrefl h.total_score) in
        (
          ordered.negtrans best.total_score next.total_score w.total_score old top,
          (ordered.negtrans h.total_score next.total_score w.total_score new top, rest),
        )

    best_of-mem :
        (best : Hypothesis F S) (hs : List (Hypothesis F S))
        → Memᴰ (best_of fl num_ffs cmp best hs) (best ∷ hs)
    unfolding best_of
    best_of-mem best [] = Memᴰ.head refl
    best_of-mem best (h ∷ hs) = elim (Bool-cases (fl.gt h.total_score best.total_score)) [
      | inl better ↦ rw better (Memᴰ.tail (best_of-mem h hs))
      | inr worse ↦ rw worse (elim (Memᴰ.cases_cons (best_of-mem best hs)) [
        | inl here ↦ Memᴰ.head here
        | inr later ↦ Memᴰ.tail (Memᴰ.tail later)
      ])
    ]

    -- For scores without NaN: either the stack is empty and GetBestHypothesis is NULL, or it is a
    -- hypothesis of the stack than which none of the stack is better.
    pub get_best_hypothesis-cases :
        (st : HypothesisStack F S)
        → ((st.hypos ≡ []) × (get_best_hypothesis fl num_ffs cmp st ≡ none))
          ⊎ ((w : Hypothesis F S) × (get_best_hypothesis fl num_ffs cmp st ≡ some w)
              × Memᴰ w st.hypos
              × Unbeaten w st.hypos)
    unfolding get_best_hypothesis
    get_best_hypothesis-cases st = cases st.hypos
      where
        cases :
            (hs : List (Hypothesis F S))
            → ((hs ≡ [])
                × (◌≡◌ {A = Option (Hypothesis F S)}
                    (elim hs [ [] ↦ none | h ∷ r ↦ some (best_of fl num_ffs cmp h r) ])
                    none))
              ⊎ ((w : Hypothesis F S) × (◌≡◌ {A = Option (Hypothesis F S)}
                    (elim hs [ [] ↦ none | h ∷ r ↦ some (best_of fl num_ffs cmp h r) ])
                    (some w))
                  × Memᴰ w hs
                  × Unbeaten w hs)
        cases [] = inl (refl, refl)
        cases (h ∷ r) = inr (best_of fl num_ffs cmp h r, refl, best_of-mem h r, best_of_bounds h r)
