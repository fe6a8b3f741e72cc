-- ===== src/Decoder/Sentence/Complete.antt =====
-- The search of a sentence: what its stacks hold in the end, and what GetBestHypothesis returns.
use moses.Base.{
  ℕ, ◌+◌, ◌-◌, Ordering, ◌≡◌, refl, ◌⊎◌, inl, true, false, Option, none, some, List, [], arith,
  length, replicate,
}
use moses.Base.StdSet.{All}
use mathlib.Core.List.{Memᴰ}
use moses.Coverage.Bitmap.{get_num_words_covered}
use moses.FutureCost.Float.{Floats}
use moses.Decoder.Hypothesis.{Core, Hypothesis}
use moses.Decoder.Hypothesis.Build.{Features}
use moses.Decoder.Stack.{HypothesisStack}
use moses.Decoder.Stack.Invariant.{IsValid}
use moses.Decoder.Stack.Best.{Unbeaten}
use moses.Decoder.Sentence.Slots.{nth}
use moses.Decoder.Sentence.Usable.{Finishes, IsUsable}
use moses.Decoder.Sentence.Invariant.{Slot, Suitable}
use moses.Decoder.Sentence.Rounds.{Final}
use moses.Decoder.Sentence.{
  Settings, Task, Search, Outcome, finished, crashed, new_search, process_sentence,
  get_best_hypothesis, search_best,
}

pub Finishes-map :
    {A : Type 0} (Q R : A → Type 0) (o : Outcome A)
    → ((a : A) → Q a → R a)
    → Finishes Q o
    → Finishes R o
Finishes-map Q R (finished a) f h = f a h
Finishes-map Q R crashed f h = h

module _ {F S : Type 0} (fl : Floats F) (ff : Features F S) (cmp : S → S → Ordering)
    (nth_element : ℕ → List (Core F S) → List (Core F S)) (cfg : Settings F) (task : Task fl) where
  abbrev pub search : Outcome (Search F S)
  search =
      process_sentence fl ff cmp nth_element cfg task (new_search fl ff cmp nth_element cfg task)

  -- `stack` is valid, and its hypotheses have bitmaps of the sentence's size that cover `k` words.
  pub record Tidy (k : ℕ) (stack : HypothesisStack F S) : Type 0 where
    pub valid : IsValid fl ff.num_stateful cmp stack
    pub hypos :
        All
          (λ h.
            (length h.source_completed ≡ task.input.size)
            × (get_num_words_covered h.source_completed ≡ k))
          stack.hypos

  -- What GetBestHypothesis may find in the last stack.
  abbrev pub Best : HypothesisStack F S → Option (Hypothesis F S) → Type 0
  Best stack result =
      ((stack.hypos ≡ []) × (result ≡ none))
      ⊎ ((w : Hypothesis F S) × (result ≡ some w)
          × (w.source_completed ≡ replicate task.input.size true)
          × Memᴰ w stack.hypos
          × Unbeaten fl ff.num_stateful cmp w stack.hypos)

  abbrev pub Answer : Search F S → Option (Hypothesis F S) → Type 0
  Answer st result =
      (stack : HypothesisStack F S) × (nth st.stacks task.input.size ≡ some stack)
      × Best stack result

  module _ (usable : IsUsable fl ff cmp nth_element cfg task)
      (plain : cfg.min_hypo_stack_diversity ≡ 0) where
    pub anything : Suitable fl ff cmp nth_element cfg task (λ h. Unit)
    anything = record {
      usable = usable;
      ids = inl plain;
      first = tt;
      next = λ id prev h opt l p m same. tt;
    }

    abbrev Plain : ℕ → HypothesisStack F S → Type 0
    Plain = Slot fl ff cmp nth_element cfg task (λ h. Unit)

    abbrev Ended : Search F S → Type 0
    Ended = Final fl ff cmp nth_element cfg task (λ h. Unit) anything

    pub search_best-last :
        (st : Search F S) (stack : HypothesisStack F S)
        → st.interrupted_flag ≡ false
        → length st.stacks ≡ task.input.size + 1
        → nth st.stacks task.input.size ≡ some stack
        → search_best fl ff cmp nth_element cfg task st
          ≡ finished (get_best_hypothesis fl ff.num_stateful cmp stack)
    unfolding search_best
    search_best-last st stack f l e =
        let same : length st.stacks - 1 ≡ task.input.size = omega (arith, l) in rw (f, same, e) refl
