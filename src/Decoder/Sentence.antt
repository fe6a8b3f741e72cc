-- ===== src/Decoder/Sentence.antt =====
-- The stack search of a sentence: SearchNormal (moses/src/SearchNormal.cpp), which ties the
-- hypotheses, the stacks and ProcessOneHypothesis together, and the cleaning of arc lists
-- (moses/src/Hypothesis.cpp, HypothesisStackNormal.cpp).
mod State
pub mod Slots
mod Arcs
pub mod Usable
pub mod Invariant
mod Rounds
mod Start
pub mod Complete
pub mod TimeOut
mod Examples
pub mod Reached
use moses.Base.{
  ℕ, zero, suc, ◌+◌, ◌-◌, ◌*◌, ◌%◌, Ordering, Bool, true, false, not, ◌&&◌, ◌||◌, Option, none,
  some, List, [], ◌∷◌, map, ltb, ◌==◌, if◌then◌else◌, length, set, replicate, pos, negsuc,
}
use moses.Coverage.Range
use moses.Coverage.Range.{WordsRange}
use moses.Coverage.Bitmap.{get_num_words_covered, get_id_plus, id_plus_fits}
use moses.FutureCost.Float.{Floats}
use moses.FutureCost.Matrix.{calc_future_score_span}
use moses.Decoder.Hypothesis.{Core, Hypothesis}
use moses.Decoder.Hypothesis.Build.{
  TranslationOption, Features, Created, created, null, failed, seed, create_next, calc_score,
  score_asserts,
}
use moses.Decoder.Stack.{
  HypothesisStack, Added, returned, new_stack, set_max_hypo_stack_size, set_beam_width, add_prune,
  prune_to_size, prune_asserts, get_best_hypothesis, get_worst_score_for_bitmap,
}
use moses.Decoder.Search.{process_one_hypothesis}
use moses.Decoder.Sentence.Slots.{nth}
pub use moses.Decoder.Sentence.State.{Settings, Task, Search, Outcome, finished, crashed}
unfoldable pub use moses.Decoder.Sentence.State.{each, first_of}

module _ {F S : Type 0} (fl : Floats F) (ff : Features F S) (compare_state : S → S → Ordering)
    (nth_element : ℕ → List (Core F S) → List (Core F S)) (cfg : Settings F) (task : Task fl) where
  -- Hypothesis::CleanupArcList; `nth_element` is std::nth_element with the better score first.
  unfoldable pub cleanup_arc_list : Hypothesis F S → Hypothesis F S
  unfolding first_of
  cleanup_arc_list h =
      if not cfg.distinct_n_best && ltb (cfg.n_best_size * 5) (length h.arc_list)
      then record h {
        arc_list = first_of cfg.n_best_size (nth_element (cfg.n_best_size - 1) h.arc_list);
      }
      else h

  -- HypothesisStackNormal::CleanupArcList
  unfoldable pub cleanup_arc_lists : HypothesisStack F S → HypothesisStack F S
  unfolding cleanup_arc_list
  cleanup_arc_lists st =
      if not st.n_best_is_enabled then st else record st { hypos = map cleanup_arc_list st.hypos }

  -- The constructor of SearchNormal.
  unfoldable pub new_search : Search F S
  new_search =
      let fresh =
        new_stack fl ff.num_stateful compare_state cfg.n_best_is_enabled cfg.beam_width
          cfg.max_hypo_stack_size cfg.min_hypo_stack_diversity in
      let sized =
        set_max_hypo_stack_size fl ff.num_stateful compare_state fresh cfg.max_hypo_stack_size
          cfg.min_hypo_stack_diversity in
      record {
        stacks =
            replicate (task.input.size + 1)
              (set_beam_width fl ff.num_stateful compare_state sized cfg.beam_width);
        next_id = 0;
        interrupted_flag = false;
        actual_hypo_stack = none;
      }

  abbrev pub shift : ℕ
  shift = elim cfg.max_distortion [ pos d ↦ d | negsuc k ↦ cfg.negative_shift ]

  abbrev pub settle : ℕ → Search F S → Added (HypothesisStack F S) → Outcome (Search F S)
  settle words st (returned stack fresh) =
      finished (record st { stacks = set st.stacks words stack })
  settle words st Added.aborted = crashed

  -- AddPrune on the stack of `words` words.
  unfoldable pub add_at : ℕ → Core F S → Search F S → Outcome (Search F S)
  add_at words new st = elim (nth st.stacks words) [
    | none ↦ crashed
    | some stack ↦
        let hypo : Hypothesis F S = record { core = new; arc_list = [] } in
        settle words st (add_prune fl ff.num_stateful compare_state shift stack hypo)
  ]

  -- CreateNext with the next id.
  abbrev pub build : Search F S → Core F S → TranslationOption F → Created (Core F S)
  build st prev opt = create_next fl ff cfg.max_num_factors task.constraint st.next_id prev opt

  abbrev pub count_created : Search F S → Search F S
  count_created st = record st { next_id = (st.next_id + 1) % 4294967296 }

  -- ExpandHypothesis without early discarding.
  unfoldable pub simple_build : Core F S → TranslationOption F → Search F S → Outcome (Search F S)
  unfolding add_at
  simple_build prev opt st = elim (build st prev opt) [
    | null ↦ finished st
    | failed ↦ crashed
    | created h ↦
        let scored = calc_score fl ff task.future_costs cfg.all_weights prev.ff_states opt h in
        if score_asserts fl ff cfg.all_weights opt h scored
        then add_at (get_num_words_covered scored.source_completed) scored (count_created st)
        else crashed
  ]

  -- allowedScore, from the stack of the hypothesis that would be made.
  unfoldable pub allowed_score : HypothesisStack F S → Core F S → TranslationOption F → F
  allowed_score stack prev opt =
      let r = opt.source_words_range in
      let id = get_id_plus prev.source_completed r.start_pos r.end_pos in
      let for_bitmap = get_worst_score_for_bitmap fl ff.num_stateful compare_state stack id in
      let worst =
        (if cfg.min_hypo_stack_diversity == 0
          then stack.worst_score
          else if fl.gt stack.worst_score for_bitmap
          then for_bitmap
          else stack.worst_score) in
      fl.add worst cfg.early_discarding_threshold

  -- The assertions of GetIDPlus, which is called if a diversity bound is set.
  abbrev pub allowed_asserts : Core F S → TranslationOption F → Bool
  allowed_asserts prev opt =
      let r = opt.source_words_range in
      cfg.min_hypo_stack_diversity == 0 || id_plus_fits prev.source_completed r.start_pos r.end_pos

  -- ExpandHypothesis with early discarding. A hypothesis that gets as far as CalcExpectedScore
  -- meets its assertion, which always fails.
  unfoldable pub early_discarding :
      Core F S → TranslationOption F → F → Search F S → Outcome (Search F S)
  unfolding allowed_score
  early_discarding prev opt expected st =
      let words =
        get_num_words_covered prev.source_completed
        + Range.get_num_words_covered opt.source_words_range in
      elim (nth st.stacks words) [
        | none ↦ crashed
        | some stack ↦
            if not (allowed_asserts prev opt)
            then crashed
            else if fl.gt (allowed_score stack prev opt) (fl.add expected opt.future_score)
            then finished st
            else elim (build st prev opt) [
              | null ↦ finished st
              | failed ↦ crashed
              | created h ↦ crashed
            ]
      ]

  unfoldable pub expand_hypothesis :
      Core F S → F → TranslationOption F → Search F S → Outcome (Search F S)
  unfolding simple_build early_discarding
  expand_hypothesis prev expected opt st =
      if not cfg.use_early_discarding
      then simple_build prev opt st
      else early_discarding prev opt expected st

  unfoldable pub expand_all_hypotheses : Core F S → WordsRange → Search F S → Outcome (Search F S)
  unfolding expand_hypothesis each
  expand_all_hypotheses prev r st =
      let future =
        calc_future_score_span fl task.future_costs prev.source_completed r.start_pos r.end_pos in
      let expected =
        (if cfg.use_early_discarding
          then fl.add (fl.sub prev.total_score prev.future_score) future
          else fl.zero_float) in
      each (expand_hypothesis prev expected) (task.options r) st

  -- Whether a span has translation options.
  abbrev pub has_options : WordsRange → Bool
  has_options r = not (length (task.options r) == 0)

  -- The spans by which a hypothesis is expanded.
  abbrev pub spans_of : Core F S → List WordsRange
  spans_of h =
      process_one_hypothesis task.input cfg.max_distortion cfg.max_phrase_length task.rc has_options
        h.source_completed h.curr_source_range

  -- ProcessOneHypothesis
  unfoldable pub expand_one : Hypothesis F S → Search F S → Outcome (Search F S)
  unfolding expand_all_hypotheses each
  expand_one h st = each (expand_all_hypotheses h.core) (spans_of h.core) st

  -- The stack before it is expanded: pruned, and its arc lists cleaned.
  abbrev pub cleaned_stack : HypothesisStack F S → HypothesisStack F S
  cleaned_stack stack =
      cleanup_arc_lists
        (prune_to_size fl ff.num_stateful compare_state stack cfg.max_hypo_stack_size)

  -- Where CleanupArcList shortens a list, nth_element gets begin() + nBestSize - 1, which lies
  -- before the list if nBestSize is 0.
  abbrev pub arcs_fit : Hypothesis F S → Bool
  arcs_fit h =
      not (not cfg.distinct_n_best && ltb (cfg.n_best_size * 5) (length h.arc_list))
      || ltb 0 cfg.n_best_size

  pub all_arcs_fit : List (Hypothesis F S) → Bool
  all_arcs_fit [] = true
  all_arcs_fit (h ∷ hs) = arcs_fit h && all_arcs_fit hs

  -- What pruning and cleaning a stack need.
  pub clean_asserts : HypothesisStack F S → Bool
  unfolding all_arcs_fit
  clean_asserts stack =
      prune_asserts fl ff.num_stateful compare_state stack cfg.max_hypo_stack_size
      && (not stack.n_best_is_enabled
          || all_arcs_fit
              (prune_to_size fl ff.num_stateful compare_state stack cfg.max_hypo_stack_size).hypos)

  -- actual_hypoStack, after a stack is expanded.
  abbrev pub mark_actual : ℕ → Outcome (Search F S) → Outcome (Search F S)
  mark_actual k (finished st) = finished (record st { actual_hypo_stack = some k })
  mark_actual k crashed = crashed

  -- One round of the loop over the stacks. An expansion adds to a later stack, so the loop over the
  -- hypotheses runs over the stack as it is.
  unfoldable pub process_stack : ℕ → Search F S → Outcome (Search F S)
  unfolding cleanup_arc_lists expand_one each clean_asserts
  process_stack k st = elim (nth st.stacks k) [
    | none ↦ crashed
    | some stack ↦
        let cleaned = cleaned_stack stack in
        if clean_asserts stack
        then mark_actual k
            (each expand_one cleaned.hypos (record st { stacks = set st.stacks k cleaned }))
        else crashed
  ]

  -- The loop over the stacks, with the rounds left.
  pub stack_rounds : ℕ → ℕ → Search F S → Outcome (Search F S)
  unfolding process_stack
  stack_rounds zero k st = finished st
  stack_rounds (suc n) k st =
      if task.timed_out k
      then finished (record st { interrupted_flag = true })
      else elim (process_stack k st) [
        | finished st' ↦ stack_rounds n (k + 1) st'
        | crashed ↦ crashed
      ]

  -- The seed hypothesis, and the state in which it is added.
  abbrev pub first_hypothesis : Core F S
  first_hypothesis = seed fl ff task.input.size (replicate cfg.num_scores fl.zero_float)

  abbrev pub loop_over : Outcome (Search F S) → Outcome (Search F S)
  unfolding stack_rounds
  loop_over (finished st) = stack_rounds (length st.stacks) 0 st
  loop_over crashed = crashed

  unfoldable pub process_sentence : Search F S → Outcome (Search F S)
  unfolding stack_rounds add_at
  process_sentence st = loop_over (add_at 0 first_hypothesis (record st { next_id = 1 }))

  -- SearchNormal::GetBestHypothesis; with actual_hypoStack unset it would follow a wild pointer.
  unfoldable pub search_best : Search F S → Outcome (Option (Hypothesis F S))
  search_best st =
      let best = λ (k : ℕ).
        let found : Outcome (Option (Hypothesis F S)) = elim (nth st.stacks k) [
          | none ↦ crashed
          | some stack ↦ finished (get_best_hypothesis fl ff.num_stateful compare_state stack)
        ] in
        found in
      if not st.interrupted_flag
      then best (length st.stacks - 1)
      else elim st.actual_hypo_stack [ none ↦ crashed | some k ↦ best k ]
