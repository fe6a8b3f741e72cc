-- ===== src/Decoder/Sentence/TimeOut.antt =====
-- What GetBestHypothesis returns after a search that ran out of time.
use moses.Base.{ℕ, Ordering, ◌≡◌, refl, ◌⊎◌, true, Option, none, some, List, []}
use moses.Coverage.Bitmap.{get_num_words_covered}
use moses.FutureCost.Float.{Floats}
use moses.Decoder.Hypothesis.{Core, Hypothesis}
use moses.Decoder.Hypothesis.Build.{Features}
use moses.Decoder.Stack.{HypothesisStack}
use moses.Decoder.Stack.Best.{Unbeaten}
use moses.Decoder.Sentence.Slots.{nth}
use moses.Decoder.Sentence.Usable.{Finishes, IsUsable}
use moses.Decoder.Sentence.Invariant.{Slot}
use moses.Decoder.Sentence.Rounds.{Final}
use moses.Decoder.Sentence.Start.{process_sentence-Final}
use moses.Decoder.Sentence.{Settings, Task, Search, crashed, search_best}
use moses.Decoder.Sentence.Complete.{search, anything, Finishes-map}

module _ {F S : Type 0} (fl : Floats F) (ff : Features F S) (cmp : S → S → Ordering)
    (nth_element : ℕ → List (Core F S) → List (Core F S)) (cfg : Settings F) (task : Task fl) where
  -- The best hypothesis of the stack that was expanded last, or NULL if that is empty.
  abbrev pub Partial : Search F S → Option (Hypothesis F S) → Type 0
  Partial st result =
      (k : ℕ) × (stack : HypothesisStack F S) × (nth st.stacks k ≡ some stack)
      × (((stack.hypos ≡ []) × (result ≡ none))
          ⊎ ((w : Hypothesis F S) × (result ≡ some w)
              × (get_num_words_covered w.source_completed ≡ k)
              × Unbeaten fl ff.num_stateful cmp w stack.hypos))

  module _ (usable : IsUsable fl ff cmp nth_element cfg task)
      (plain : cfg.min_hypo_stack_diversity ≡ 0) where
    abbrev Ended : Search F S → Type 0
    Ended =
        Final fl ff cmp nth_element cfg task (λ h. Unit)
          (anything fl ff cmp nth_element cfg task usable plain)

    ended : Finishes Ended (search fl ff cmp nth_element cfg task)
    ended =
        process_sentence-Final fl ff cmp nth_element cfg task (λ h. Unit)
          (anything fl ff cmp nth_element cfg task usable plain)

    search_best-unset :
        (st : Search F S)
        → st.interrupted_flag ≡ true
        → st.actual_hypo_stack ≡ none
        → search_best fl ff cmp nth_element cfg task st ≡ crashed
    unfolding search_best
    search_best-unset st f e = rw (f, e) refl

    -- For scores without NaN and a comparison of states that is a total order up to equality,
    -- without early discarding and stack diversity, for a stack size below 2^63, n-best lists that
    -- are off, of distinct translations, or of a size that is not 0, options that cover the span
    -- for which they are listed and have no more scores than a hypothesis, feature functions that
    -- keep the number of scores, and a weight for each score, if the time is over before the first
    -- stack is processed: the search ends with actual_hypoStack unset, which GetBestHypothesis then
    -- follows.
    pub search_best-unset_stack :
        task.timed_out 0 ≡ true
        → Finishes
            (λ st. search_best fl ff cmp nth_element cfg task st ≡ crashed)
            (search fl ff cmp nth_element cfg task)
    search_best-unset_stack late =
        Finishes-map Ended _ (search fl ff cmp nth_element cfg task)
          (λ st f. let (flag, unset) = f.too_late late in search_best-unset st flag unset) ended

    abbrev PlainSlot : ℕ → HypothesisStack F S → Type 0
    PlainSlot = Slot fl ff cmp nth_element cfg task (λ h. Unit)
