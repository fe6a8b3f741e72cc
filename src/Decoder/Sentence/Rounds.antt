-- ===== src/Decoder/Sentence/Rounds.antt =====
-- The loop over the stacks keeps the invariant, and how it ends.
use moses.Base.{
  ℕ, zero, suc, ◌+◌, ◌≤◌, ◌<◌, Ordering, ◌≡◌, refl, sym, ap, ◌∙◌, ◌⊎◌, inl, inr, true, false, none,
  some, List, arith, Bool-cases, set, length-set, if_true, if_false,
}
use moses.Base.StdSet.{All-mem}
use moses.FutureCost.Float.{Floats}
use moses.Decoder.Hypothesis.{Core}
use moses.Decoder.Hypothesis.Build.{Features}
use moses.Decoder.Stack.{HypothesisStack, prune_to_size}
use moses.Decoder.Stack.Config.{prune_to_size-SameLimits}
use moses.Decoder.Stack.Asserts.{prune_asserts-true}
use moses.Decoder.Stack.Contents.{prune_to_size-OfAll, prune_to_size-keeps}
use moses.Decoder.Sentence.Slots.{nth, EachSlot-nth, EachSlot-set, nth-in}
use moses.Decoder.Sentence.Arcs.{
  cleanup_arc_lists-IsValid, cleanup_arc_lists-OfAll, cleanup_arc_lists-Fixed, all_arcs_fit-true,
}
use moses.Decoder.Sentence.Usable.{Finishes, each-Finishes}
use moses.Decoder.Sentence.Invariant.{Good, Slot, Inv, Suitable, expand_one-Inv, Slot-HaveIds}
use moses.Decoder.Sentence.{
  Settings, Task, Search, Outcome, finished, crashed, each, expand_one, process_stack, stack_rounds,
  cleaned_stack, mark_actual, clean_asserts,
}
use mathlib.Core.Path.{subst}

zero_or : (n : ℕ) → (n ≡ 0) ⊎ (0 < n)
zero_or zero = inl refl
zero_or (suc n) = inr (omega arith)

module _ {F S : Type 0} (fl : Floats F) (ff : Features F S) (cmp : S → S → Ordering)
    (nth_element : ℕ → List (Core F S) → List (Core F S)) (cfg : Settings F) (task : Task fl)
    (P : Core F S → Type 0) (ok : Suitable fl ff cmp nth_element cfg task P) where
  abbrev Holds : Search F S → Type 0
  Holds = Inv fl ff cmp nth_element cfg task P

  abbrev SlotOf : ℕ → HypothesisStack F S → Type 0
  SlotOf = Slot fl ff cmp nth_element cfg task P

  -- How the loop ends, if stack 0 is reached: if the time is over before, it is interrupted with no
  -- stack that was expanded, else there is one if it is interrupted; it is interrupted only by the
  -- time.
  pub record Final (st : Search F S) : Type 0 where
    pub inv : Holds (record st { interrupted_flag = false })
    pub expanded :
        task.timed_out 0 ≡ false
        → st.interrupted_flag ≡ true
        → (k : ℕ) × (st.actual_hypo_stack ≡ some k)
    pub too_late :
        task.timed_out 0 ≡ true → (st.interrupted_flag ≡ true) × (st.actual_hypo_stack ≡ none)
    pub completed : ((k : ℕ) → task.timed_out k ≡ false) → st.interrupted_flag ≡ false

  cleaned-Slot :
      (k : ℕ) (stack : HypothesisStack F S)
      → SlotOf k stack
      → SlotOf k (cleaned_stack fl ff cmp nth_element cfg task stack)
  cleaned-Slot k stack s =
      let n = cfg.max_hypo_stack_size in
      let pruned = prune_to_size fl ff.num_stateful cmp stack n in
      let same = prune_to_size-SameLimits fl ff.num_stateful cmp stack n in
      record {
        valid = cleanup_arc_lists-IsValid fl ff cmp nth_element cfg task pruned (
            prune_to_size-keeps fl ff.num_stateful cmp ok.usable.ordered ok.usable.lawful stack n
              s.valid);
        hypos =
            cleanup_arc_lists-OfAll fl ff cmp nth_element cfg task
              (Good fl ff cmp nth_element cfg task P k) pruned
              (prune_to_size-OfAll fl ff.num_stateful cmp (Good fl ff cmp nth_element cfg task P k)
                stack n s.hypos);
        limits =
            cleanup_arc_lists-Fixed fl ff cmp nth_element cfg task cfg.min_hypo_stack_diversity
              cfg.n_best_is_enabled pruned (same.diversity ∙ s.limits.0, same.n_best ∙ s.limits.1);
      }

  clean_asserts-true :
      (k : ℕ) (stack : HypothesisStack F S)
      → SlotOf k stack
      → clean_asserts fl ff cmp nth_element cfg task stack ≡ true
  unfolding clean_asserts
  clean_asserts-true k stack s =
      let n = cfg.max_hypo_stack_size in
      let pruned = prune_to_size fl ff.num_stateful cmp stack n in
      let ids =
        prune_asserts-true fl ff.num_stateful cmp stack n
          (Slot-HaveIds fl ff cmp nth_element cfg task P ok k stack stack.hypos s s.hypos) in
      elim ok.usable.arcs [
        | inl off ↦ let unused = s.limits.1 ∙ off in ground (arith, ids, unused)
        | inr fit ↦
            let whole = all_arcs_fit-true fl ff cmp nth_element cfg task pruned.hypos fit in
            ground (arith, ids, whole)
      ]

  -- The state after round `k`.
  abbrev After : ℕ → Search F S → Type 0
  After k st = Holds st × (st.actual_hypo_stack ≡ some k)

  mark :
      (k : ℕ) (o : Outcome (Search F S))
      → k ≤ task.input.size
      → Finishes Holds o
      → Finishes (After k) (mark_actual fl ff cmp nth_element cfg task k o)
  mark k (finished st) le i = (
    record {
      stacks = i.stacks;
      slots = i.slots;
      flag = i.flag;
      actual = λ j e. ground (arith, le, e);
    },
    refl,
  )
  mark k crashed le h = h

  process_stack-some :
      (k : ℕ) (st : Search F S) (stack : HypothesisStack F S)
      → nth st.stacks k ≡ some stack
      → clean_asserts fl ff cmp nth_element cfg task stack ≡ true
      → process_stack fl ff cmp nth_element cfg task k st ≡ (
          let cleaned = cleaned_stack fl ff cmp nth_element cfg task stack in
          mark_actual fl ff cmp nth_element cfg task k (
            each
              (expand_one fl ff cmp nth_element cfg task)
              cleaned.hypos
              (record st { stacks = set st.stacks k cleaned })))
  unfolding process_stack
  process_stack-some k st stack e fit = rw (e, process_stack, fit) refl

  process_stack-After :
      (k : ℕ) (st : Search F S)
      → k ≤ task.input.size
      → Holds st
      → Finishes (After k) (process_stack fl ff cmp nth_element cfg task k st)
  process_stack-After k st le i =
      let (stack, e) = nth-in st.stacks k (omega (arith, i.stacks)) in
      let slot : SlotOf k stack =
        subst (λ j. SlotOf j stack) (omega arith) (EachSlot-nth SlotOf 0 st.stacks k i.slots e) in
      let cleaned = cleaned_stack fl ff cmp nth_element cfg task stack in
      let clean = cleaned-Slot k stack slot in
      let st' : Search F S = record st { stacks = set st.stacks k cleaned } in
      let i' : Holds st' = record {
        stacks = length-set st.stacks k cleaned ∙ i.stacks;
        slots =
            EachSlot-set SlotOf 0 st.stacks k cleaned i.slots
              (subst (λ j. SlotOf j cleaned) (omega arith) clean);
        flag = i.flag;
        actual = i.actual;
      } in
      subst (Finishes (After k))
        (sym (process_stack-some k st stack e (clean_asserts-true k stack slot)))
        (mark k (each (expand_one fl ff cmp nth_element cfg task) cleaned.hypos st') le (
          each-Finishes _ Holds cleaned.hypos st'
            (λ h s m j.
              expand_one-Inv fl ff cmp nth_element cfg task P ok k h s
                (All-mem (λ x. Good fl ff cmp nth_element cfg task P k x.core) cleaned.hypos h
                  clean.hypos m)
                j)
            i'))

  -- After a round there is a stack that was expanded, and before there is none.
  abbrev Started : ℕ → Search F S → Type 0
  Started k st =
      (k ≡ 0 → st.actual_hypo_stack ≡ none)
      × (0 < k → ((j : ℕ) × (st.actual_hypo_stack ≡ some j)) × (task.timed_out 0 ≡ false))

  abbrev next_rounds : ℕ → ℕ → Outcome (Search F S) → Outcome (Search F S)
  next_rounds n k (finished st) = stack_rounds fl ff cmp nth_element cfg task n (k + 1) st
  next_rounds n k crashed = crashed

  stack_rounds-more :
      (n k : ℕ) (st : Search F S)
      → task.timed_out k ≡ false
      → stack_rounds fl ff cmp nth_element cfg task (suc n) k st
        ≡ next_rounds n k (process_stack fl ff cmp nth_element cfg task k st)
  unfolding stack_rounds
  stack_rounds-more n k st h = if_false (task.timed_out k) _ _ h

  stack_rounds-out :
      (n k : ℕ) (st : Search F S)
      → task.timed_out k ≡ true
      → stack_rounds fl ff cmp nth_element cfg task (suc n) k st
        ≡ finished (record st { interrupted_flag = true })
  unfolding stack_rounds
  stack_rounds-out n k st h = if_true (task.timed_out k) _ _ h

  resume :
      (n k : ℕ) (o : Outcome (Search F S))
      → ((st : Search F S)
          → After k st
          → Finishes Final (stack_rounds fl ff cmp nth_element cfg task n (k + 1) st))
      → Finishes (After k) o
      → Finishes Final (next_rounds n k o)
  unfolding stack_rounds
  resume n k (finished st) later h = later st h
  resume n k crashed later h = h

  pub stack_rounds-Final :
      (n k : ℕ) (st : Search F S)
      → k + n ≤ task.input.size + 1
      → 0 < k + n
      → Holds st
      → Started k st
      → Finishes Final (stack_rounds fl ff cmp nth_element cfg task n k st)
  unfolding stack_rounds
  stack_rounds-Final zero k st le more i s = record {
    inv = record { stacks = i.stacks; slots = i.slots; flag = refl; actual = i.actual };
    expanded = λ h e. absurd (cc (e, i.flag));
    too_late = λ h. absurd (cc (h, (s.1 (omega (arith, more))).1));
    completed = λ h. i.flag;
  }
  stack_rounds-Final (suc n) k st le more i s = elim (Bool-cases (task.timed_out k)) [
    | inl out ↦ subst (Finishes Final) (sym (stack_rounds-out n k st out)) (record {
      inv = record { stacks = i.stacks; slots = i.slots; flag = refl; actual = i.actual };
      expanded = λ h e.
          (s.1 (elim (zero_or k) [
            | inl z ↦ absurd (cc (ap (λ (j : ℕ). task.timed_out j) z, out, h))
            | inr p ↦ p
          ])).0;
      too_late =
          λ h. elim (zero_or k) [ inl z ↦ (refl, s.0 z) | inr p ↦ absurd (cc (h, (s.1 p).1)) ];
      completed = λ h. absurd (cc (h k, out));
    })
    | inr time ↦ subst (Finishes Final) (sym (stack_rounds-more n k st time)) (
        resume n k (process_stack fl ff cmp nth_element cfg task k st)
          (λ t (j, e). stack_rounds-Final n (k + 1) t (omega (arith, le)) (omega arith) j (
            (λ z. absurd (omega (arith, z))),
            (λ _. (
              (k, e),
              elim (zero_or k) [
                | inl z ↦ ap (λ (j : ℕ). task.timed_out j) (sym z) ∙ time
                | inr p ↦ (s.1 p).1
              ],
            )),
          ))
          (process_stack-After k st (omega arith) i))
  ]
