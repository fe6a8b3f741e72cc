-- ===== src/Decoder/Sentence/Invariant.antt =====
-- What holds of the stacks throughout the search of a sentence without early discarding.
use moses.Base.{
  ℕ, ◌+◌, ◌≤◌, Ordering, ◌≡◌, refl, sym, ap, ◌∙◌, ◌⊎◌, inl, inr, true, false, not, some, List, [],
  ◌∷◌, arith, Bool-cases, length, replicate, length-set, if_true,
}
use moses.Base.StdSet.{All, All-map}
use mathlib.Core.List.{Memᴰ}
use moses.Coverage.Range.{WordsRange}
use moses.Coverage.Bitmap.{get_num_words_covered, overlap, id_fits}
use moses.Coverage.Bitmap.Cover.{length-set_values, get_num_words_covered-le}
use moses.FutureCost.Float.{Floats}
use moses.Decoder.Hypothesis.{Core, Hypothesis}
use moses.Decoder.Hypothesis.Build.{
  TranslationOption, Features, created, null, seed, extend, create_next, calc_score, allowed,
  SameWords, calc_score-SameWords, Created, score_asserts, length-calc_score,
}
use moses.Decoder.Stack.{HypothesisStack, Added, returned, add_prune, has_id}
use moses.Decoder.Stack.Invariant.{IsValid}
use moses.Decoder.Stack.AddPrune.{Returns}
use moses.Decoder.Stack.Contents.{OfAll, Kept, add_prune-OfAll}
use moses.Decoder.Stack.Diversity.{Fixed}
use moses.Decoder.Stack.Asserts.{HaveIds}
use moses.Decoder.Search.Spans.{process_one_hypothesis-Expandable}
use moses.Decoder.Sentence.Slots.{nth, EachSlot, EachSlot-nth, EachSlot-set, nth-in}
use moses.Decoder.Sentence.{
  Settings, Task, Search, settle, finished, shift, add_at, simple_build, count_created,
  expand_hypothesis, expand_all_hypotheses, has_options, spans_of, expand_one,
}
use mathlib.Core.Path.{subst}
use moses.Decoder.Sentence.Usable.{Finishes, each-Finishes, IsUsable}

module _ {F S : Type 0} (fl : Floats F) (ff : Features F S) (cmp : S → S → Ordering)
    (nth_element : ℕ → List (Core F S) → List (Core F S)) (cfg : Settings F) (task : Task fl)
    (P : Core F S → Type 0) where
  -- A hypothesis of the stack of `k` words.
  pub record Good (k : ℕ) (h : Core F S) : Type 0 where
    pub size : length h.source_completed ≡ task.input.size
    pub words : get_num_words_covered h.source_completed ≡ k
    pub scores : length h.score_breakdown ≡ cfg.num_scores
    pub holds : P h

  -- The stack of `k` words is valid and as StaticData has it, and its hypotheses translate `k`
  -- words.
  pub record Slot (k : ℕ) (stack : HypothesisStack F S) : Type 0 where
    pub valid : IsValid fl ff.num_stateful cmp stack
    pub hypos : OfAll fl ff.num_stateful cmp (Good k) stack
    pub limits :
        Fixed fl ff.num_stateful cmp cfg.min_hypo_stack_diversity cfg.n_best_is_enabled stack

  -- There is a stack for each number of words, and actual_hypoStack is unset or one of them; the
  -- search has not been interrupted.
  pub record Inv (st : Search F S) : Type 0 where
    pub stacks : length st.stacks ≡ task.input.size + 1
    pub slots : EachSlot Slot 0 st.stacks
    pub flag : st.interrupted_flag ≡ false
    pub actual : (k : ℕ) → st.actual_hypo_stack ≡ some k → k ≤ task.input.size

  -- What the search needs: GetID is called only for a diversity bound, or `P` is enough for it.
  pub record Suitable : Type 0 where
    pub usable : IsUsable fl ff cmp nth_element cfg task
    pub ids :
        (cfg.min_hypo_stack_diversity ≡ 0)
        ⊎ ((h : Core F S)
            → length h.source_completed ≡ task.input.size
            → P h
            → id_fits h.source_completed ≡ true)
    pub first : P (seed fl ff task.input.size (replicate cfg.num_scores fl.zero_float))
    pub next :
        (id : ℕ) (prev h : Core F S) (opt : TranslationOption F)
        → length prev.source_completed ≡ task.input.size
        → P prev
        → Memᴰ opt.source_words_range (spans_of fl ff cmp nth_element cfg task prev)
        → SameWords fl ff (extend fl ff id prev opt) h
        → P h

  module _ (ok : Suitable) where
    All-has_id :
        (k : ℕ) (hs : List (Hypothesis F S))
        → ((h : Core F S)
            → length h.source_completed ≡ task.input.size
            → P h
            → id_fits h.source_completed ≡ true)
        → All (λ h. Good k h.core) hs
        → All (λ h. has_id fl ff.num_stateful cmp h ≡ true) hs
    All-has_id k hs ids a =
        All-map (λ h. Good k h.core) (λ h. has_id fl ff.num_stateful cmp h ≡ true) hs
          (λ h g. ids h.core g.size g.holds) a

    pub Slot-HaveIds :
        (k : ℕ) (stack : HypothesisStack F S) (hs : List (Hypothesis F S))
        → Slot k stack
        → All (λ h. Good k h.core) hs
        → HaveIds fl ff.num_stateful cmp stack hs
    Slot-HaveIds k stack hs s a = elim ok.ids [
      | inl off ↦ inl (s.limits.0 ∙ off)
      | inr ids ↦ inr (All-has_id k hs ids a)
    ]

    put :
        (words : ℕ) (st : Search F S) (stack : HypothesisStack F S)
        (r : Added (HypothesisStack F S))
        → words ≤ task.input.size
        → Inv st
        → Slot words stack
        → Returns (Kept fl ff.num_stateful cmp (Good words) stack) r
        → Finishes Inv (settle fl ff cmp nth_element cfg task words st r)
    put words st stack (returned s fresh) le i slot (v, a, (div, flag)) = record {
      stacks = length-set st.stacks words s ∙ i.stacks;
      slots = EachSlot-set Slot 0 st.stacks words s i.slots (
          subst (λ k. Slot k s) (omega arith)
            (record {
              valid = v;
              hypos = a;
              limits = (div ∙ slot.limits.0, flag ∙ slot.limits.1);
            }));
      actual = i.actual;
      flag = i.flag;
    }
    put words st stack Added.aborted le i slot h = h

    pub add_at-some :
        (words : ℕ) (new : Core F S) (st : Search F S) (stack : HypothesisStack F S)
        → nth st.stacks words ≡ some stack
        → add_at fl ff cmp nth_element cfg task words new st
          ≡ settle fl ff cmp nth_element cfg task words st (
              add_prune fl ff.num_stateful cmp
                (shift fl ff cmp nth_element cfg task)
                stack
                (record { core = new; arc_list = [] }))
    unfolding add_at
    add_at-some words new st stack e = rw (e, add_at)

    pub add_at-Inv :
        (words : ℕ) (new : Core F S) (st : Search F S)
        → words ≤ task.input.size
        → Good words new
        → Inv st
        → Finishes Inv (add_at fl ff cmp nth_element cfg task words new st)
    add_at-Inv words new st le g i =
        let (stack, e) = nth-in st.stacks words (omega (arith, i.stacks)) in
        let slot : Slot words stack =
          subst (λ k. Slot k stack) (omega arith) (EachSlot-nth Slot 0 st.stacks words i.slots e) in
        let md = shift fl ff cmp nth_element cfg task in
        let hyp : Hypothesis F S = record { core = new; arc_list = [] } in
        subst (Finishes Inv) (sym (add_at-some words new st stack e)) (
          put words st stack (add_prune fl ff.num_stateful cmp md stack hyp) le i slot (
            add_prune-OfAll fl ff.num_stateful cmp (Good words) ok.usable.ordered ok.usable.lawful
              md stack hyp slot.valid slot.hypos g
              (Slot-HaveIds words stack (hyp ∷ stack.hypos) slot (g, slot.hypos))))

    create_next-cases :
        (id : ℕ) (prev : Core F S) (opt : TranslationOption F)
        → overlap prev.source_completed opt.source_words_range ≡ false
        → (create_next fl ff cfg.max_num_factors task.constraint id prev opt ≡ null)
          ⊎ (create_next fl ff cfg.max_num_factors task.constraint id prev opt
              ≡ created (extend fl ff id prev opt))
    unfolding create_next
    create_next-cases id prev opt free =
        elim (Bool-cases (allowed fl ff cfg.max_num_factors task.constraint prev opt)) [
          | inl fits ↦ inr (rw (fits, free) refl)
          | inr misfit ↦ inl (rw misfit refl)
        ]

    abbrev step_of : ℕ → Core F S → TranslationOption F → Created (Core F S)
    step_of id prev opt = create_next fl ff cfg.max_num_factors task.constraint id prev opt

    simple_build-null :
        (prev : Core F S) (opt : TranslationOption F) (st : Search F S)
        → step_of st.next_id prev opt ≡ null
        → simple_build fl ff cmp nth_element cfg task prev opt st ≡ finished st
    unfolding simple_build
    simple_build-null prev opt st e = rw (e, simple_build)

    simple_build-created :
        (prev : Core F S) (opt : TranslationOption F) (st : Search F S) (new : Core F S)
        → step_of st.next_id prev opt ≡ created new
        → (let h = calc_score fl ff task.future_costs cfg.all_weights prev.ff_states opt new in
            score_asserts fl ff cfg.all_weights opt new h ≡ true)
        → simple_build fl ff cmp nth_element cfg task prev opt st ≡ (
            let h = calc_score fl ff task.future_costs cfg.all_weights prev.ff_states opt new in
            add_at fl ff cmp nth_element cfg task
              (get_num_words_covered h.source_completed)
              h
              (count_created fl ff cmp nth_element cfg task st))
    unfolding simple_build
    simple_build-created prev opt st new e fits = rw (e, simple_build, fits) refl

    simple_build-Inv :
        (k : ℕ) (prev : Core F S) (opt : TranslationOption F) (st : Search F S)
        → Good k prev
        → length opt.score_breakdown ≤ cfg.num_scores
        → Memᴰ opt.source_words_range (spans_of fl ff cmp nth_element cfg task prev)
        → Inv st
        → Finishes Inv (simple_build fl ff cmp nth_element cfg task prev opt st)
    unfolding extend
    simple_build-Inv k prev opt st g few m i =
        let r = opt.source_words_range in
        let x =
          process_one_hypothesis-Expandable task.input cfg.max_phrase_length task.rc
            (has_options fl ff cmp nth_element cfg task) prev.source_completed
            prev.curr_source_range cfg.max_distortion r m in
        let new = extend fl ff st.next_id prev opt in
        let h = calc_score fl ff task.future_costs cfg.all_weights prev.ff_states opt new in
        let same =
          calc_score-SameWords fl ff task.future_costs cfg.all_weights prev.ff_states opt new in
        let size : length h.source_completed ≡ task.input.size =
          ap (λ b. length b) same.source_completed
          ∙ length-set_values prev.source_completed r.start_pos r.end_pos true
          ∙ g.size in
        let scores =
          length-calc_score fl ff ok.usable.keeps task.future_costs cfg.all_weights prev.ff_states
            opt new
          ∙ g.scores in
        let enough = ok.usable.weights in
        let fits : score_asserts fl ff cfg.all_weights opt new h ≡ true =
          ground (arith, scores, few, enough, g.scores) in
        elim (create_next-cases st.next_id prev opt x.free) [
          | inl off ↦ subst (Finishes Inv) (sym (simple_build-null prev opt st off)) i
          | inr on ↦ subst (Finishes Inv) (sym (simple_build-created prev opt st new on fits)) (
              add_at-Inv (get_num_words_covered h.source_completed) h
                (count_created fl ff cmp nth_element cfg task st)
                (omega (arith, get_num_words_covered-le h.source_completed, size))
                (record {
                  size = size;
                  words = refl;
                  scores = scores;
                  holds = ok.next st.next_id prev h opt g.size g.holds m same;
                })
                (record { stacks = i.stacks; slots = i.slots; actual = i.actual; flag = i.flag }))
        ]

    simple_only :
        (prev : Core F S) (expected : F) (opt : TranslationOption F) (st : Search F S)
        → expand_hypothesis fl ff cmp nth_element cfg task prev expected opt st
          ≡ simple_build fl ff cmp nth_element cfg task prev opt st
    unfolding expand_hypothesis
    simple_only prev expected opt st =
        if_true (not cfg.use_early_discarding) _ _ (ap not ok.usable.simple)

    expand_all-Inv :
        (k : ℕ) (prev : Core F S) (r : WordsRange) (st : Search F S)
        → Good k prev
        → Memᴰ r (spans_of fl ff cmp nth_element cfg task prev)
        → Inv st
        → Finishes Inv (expand_all_hypotheses fl ff cmp nth_element cfg task prev r st)
    unfolding expand_all_hypotheses
    expand_all-Inv k prev r st g m i =
        each-Finishes _ Inv (task.options r) st
          (λ opt s mo j. subst (Finishes Inv) (sym (simple_only prev _ opt s)) (
            simple_build-Inv k prev opt s g (ok.usable.breakdown r opt mo)
              (subst (λ q. Memᴰ q (spans_of fl ff cmp nth_element cfg task prev))
                (sym (ok.usable.ranges r opt mo)) m)
              j))
          i

    pub expand_one-Inv :
        (k : ℕ) (h : Hypothesis F S) (st : Search F S)
        → Good k h.core
        → Inv st
        → Finishes Inv (expand_one fl ff cmp nth_element cfg task h st)
    unfolding expand_one
    expand_one-Inv k h st g i =
        each-Finishes _ Inv (spans_of fl ff cmp nth_element cfg task h.core) st
          (λ r s m j. expand_all-Inv k h.core r s g m j) i
