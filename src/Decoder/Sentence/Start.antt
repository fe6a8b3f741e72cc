-- ===== src/Decoder/Sentence/Start.antt =====
-- The search begins in the invariant, never crashes, and ends as the loop over the stacks does.
use moses.Base.{
  ℕ, zero, suc, ◌+◌, Ordering, ◌≡◌, refl, sym, inl, inr, false, none, List, arith, Option-cases,
  length, replicate, length-replicate,
}
use moses.Coverage.Bitmap
use moses.Coverage.Bitmap.{get_num_words_covered}
use moses.FutureCost.Float.{Floats}
use moses.Decoder.Hypothesis.{Core}
use moses.Decoder.Hypothesis.Build.{Features, seed}
use moses.Decoder.Stack.{HypothesisStack, new_stack, set_beam_width, set_max_hypo_stack_size}
use moses.Decoder.Stack.Invariant.{new_stack-IsValid}
use moses.Decoder.Sentence.Slots.{nth, EachSlot-replicate}
use moses.Decoder.Sentence.Usable.{Finishes}
use moses.Decoder.Sentence.Invariant.{Good, Slot, Inv, Suitable, add_at-Inv, add_at-some}
use moses.Decoder.Sentence.{
  Settings, Task, Search, Outcome, finished, crashed, new_search, add_at, stack_rounds,
  process_sentence, loop_over, first_hypothesis, Added, settle, returned,
}
use mathlib.Core.Path.{subst}
use moses.Decoder.Sentence.Rounds.{Final, stack_rounds-Final}

-- Coverage of a new bitmap.
count-new : (n : ℕ) → get_num_words_covered (replicate n false) ≡ 0
unfolding get_num_words_covered
count-new zero = refl
count-new (suc n) = count-new n

module _ {F S : Type 0} (fl : Floats F) (ff : Features F S) (cmp : S → S → Ordering)
    (nth_element : ℕ → List (Core F S) → List (Core F S)) (cfg : Settings F) (task : Task fl)
    (P : Core F S → Type 0) (ok : Suitable fl ff cmp nth_element cfg task P) where
  abbrev Holds : Search F S → Type 0
  Holds = Inv fl ff cmp nth_element cfg task P

  abbrev SlotOf : ℕ → HypothesisStack F S → Type 0
  SlotOf = Slot fl ff cmp nth_element cfg task P

  abbrev Ends : Search F S → Type 0
  Ends = Final fl ff cmp nth_element cfg task P ok

  new_search-Inv : Holds (record (new_search fl ff cmp nth_element cfg task) { next_id = 1 })
  unfolding new_search set_beam_width set_max_hypo_stack_size new_stack
  new_search-Inv =
      let fresh =
        new_stack fl ff.num_stateful cmp cfg.n_best_is_enabled cfg.beam_width
          cfg.max_hypo_stack_size cfg.min_hypo_stack_diversity in
      let sized =
        set_max_hypo_stack_size fl ff.num_stateful cmp fresh cfg.max_hypo_stack_size
          cfg.min_hypo_stack_diversity in
      let stack = set_beam_width fl ff.num_stateful cmp sized cfg.beam_width in
      record {
        stacks = length-replicate (task.input.size + 1) stack;
        slots = EachSlot-replicate SlotOf 0 (task.input.size + 1) stack (λ k. record {
          valid =
              new_stack-IsValid fl ff.num_stateful cmp cfg.n_best_is_enabled cfg.beam_width
                cfg.beam_width cfg.max_hypo_stack_size cfg.min_hypo_stack_diversity
                cfg.max_hypo_stack_size cfg.min_hypo_stack_diversity ok.usable.limit;
          hypos = tt;
          limits = (refl, refl);
        });
        flag = refl;
        actual = λ k e. absurd (ground (arith, e));
      }

  first-Good :
      Good fl ff cmp nth_element cfg task P 0 (first_hypothesis fl ff cmp nth_element cfg task)
  unfolding seed Bitmap.new
  first-Good = record {
    size = length-replicate task.input.size false;
    words = count-new task.input.size;
    scores = length-replicate cfg.num_scores fl.zero_float;
    holds = ok.first;
  }

  -- The state when the loop begins.
  abbrev Ready : Search F S → Type 0
  Ready st = Holds st × (st.actual_hypo_stack ≡ none)

  enter :
      (o : Outcome (Search F S))
      → Finishes Ready o
      → Finishes Ends (loop_over fl ff cmp nth_element cfg task o)
  unfolding loop_over stack_rounds
  enter (finished st) (i, e) =
      stack_rounds-Final fl ff cmp nth_element cfg task P ok (length st.stacks) 0 st
        (omega (arith, i.stacks)) (omega (arith, i.stacks)) i
        ((λ _. e), (λ h. absurd (omega (arith, h))))
  enter crashed h = h

  -- Whatever a finished step satisfies.
  abbrev IfFinished : (Search F S → Type 0) → Outcome (Search F S) → Type 0
  IfFinished Q (finished st) = Q st
  IfFinished Q crashed = Unit

  combine :
      (o : Outcome (Search F S))
      → Finishes Holds o
      → IfFinished (λ t. t.actual_hypo_stack ≡ none) o
      → Finishes Ready o
  combine (finished st) i e = (i, e)
  combine crashed i e = i

  unset_kept :
      (st : Search F S) (words : ℕ) (r : Added (HypothesisStack F S))
      → st.actual_hypo_stack ≡ none
      → IfFinished
          (λ t. t.actual_hypo_stack ≡ none)
          (settle fl ff cmp nth_element cfg task words st r)
  unset_kept st words (returned stack fresh) e = e
  unset_kept st words Added.aborted e = tt

  add_at-none :
      (words : ℕ) (new : Core F S) (st : Search F S)
      → nth st.stacks words ≡ none
      → add_at fl ff cmp nth_element cfg task words new st ≡ crashed
  unfolding add_at
  add_at-none words new st e = rw (e, add_at)

  add_at-unset :
      (words : ℕ) (new : Core F S) (st : Search F S)
      → st.actual_hypo_stack ≡ none
      → IfFinished
          (λ t. t.actual_hypo_stack ≡ none)
          (add_at fl ff cmp nth_element cfg task words new st)
  unfolding add_at
  add_at-unset words new st e = elim (Option-cases (nth st.stacks words)) [
    | inl out ↦
        subst (IfFinished (λ t. t.actual_hypo_stack ≡ none)) (sym (add_at-none words new st out)) tt
    | inr (stack, found) ↦
        subst (IfFinished (λ t. t.actual_hypo_stack ≡ none))
          (sym (add_at-some fl ff cmp nth_element cfg task P ok words new st stack found))
          (unset_kept st words _ e)
  ]

  abbrev begun : Outcome (Search F S)
  begun =
      add_at fl ff cmp nth_element cfg task 0 (first_hypothesis fl ff cmp nth_element cfg task)
        (record (new_search fl ff cmp nth_element cfg task) { next_id = 1 })

  begun-Ready : Finishes Ready begun
  unfolding new_search
  begun-Ready =
      combine begun
        (add_at-Inv fl ff cmp nth_element cfg task P ok 0
          (first_hypothesis fl ff cmp nth_element cfg task)
          (record (new_search fl ff cmp nth_element cfg task) { next_id = 1 }) (omega arith)
          first-Good new_search-Inv)
        (add_at-unset 0 (first_hypothesis fl ff cmp nth_element cfg task)
          (record (new_search fl ff cmp nth_element cfg task) { next_id = 1 }) refl)

  -- The search never crashes, and ends as its loop does.
  pub process_sentence-Final :
      Finishes Ends (
        process_sentence fl ff cmp nth_element cfg task (new_search fl ff cmp nth_element cfg task))
  unfolding process_sentence
  process_sentence-Final = enter begun begun-Ready
