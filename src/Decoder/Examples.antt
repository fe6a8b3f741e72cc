-- ===== src/Decoder/Examples.antt =====
-- A search over a sentence of three words, and a stack of two hypotheses with scores in ℕ.
use moses.Base.{
  ℕ, ◌+◌, ◌-◌, ◌*◌, ◌≤◌, compare, ◌≡◌, refl, inl, inr, Bool, true, false, [], ◌∷◌, arith, not_found,
  ltb, leb, length, pos,
}
use moses.Base.StdSet.{IsComparator, Sorted}
use mathlib.Core.List.{Memᴰ}
use moses.Coverage.Range.{WordsRange, get_num_words_covered}
use moses.Coverage.Bitmap
use moses.Coverage.Bitmap.{
  WordsBitmap, set_values, get_first_gap_pos, get_last_pos, overlap, compare_bitmaps, get_id,
}
use moses.Coverage.Bitmap.Ids.{FitsWindow}
use moses.FutureCost.Float.{Floats, IsOrdered}
use moses.Reordering.Constraint
use moses.Reordering.Constraint.{check}
use moses.Decoder.Hypothesis.{Hypothesis, recombine_compare}
use moses.Decoder.Hypothesis.Order.{recombine_compare-IsComparator}
use moses.Decoder.Stack.{HypothesisStack, add_prune, prune_to_size, order}
use moses.Decoder.Stack.Kept.{length-prune_to_size}
use moses.Decoder.Stack.Invariant.{IsValid}
use moses.Decoder.Stack.AddPrune.{Returns, add_prune-IsValid}
use moses.Decoder.Search.Spans.{process_one_hypothesis-Expandable, Expandable}
use moses.Decoder.Search.Reach
use moses.Decoder.Search.Reach.{
  Window, Reach-Window, Reach-FitsWindow, Reach-get_id, Reach-first_gap_ok, expand-stack, start,
}
use moses.Decoder.Search.{
  process_one_hypothesis, text, start_ok, end_ok, basic_checks, exceeds, text_distance,
}

abbrev counts : Floats ℕ
counts = record {
  zero_float = 0;
  neg_infinity = 0;
  add = λ a b. a + b;
  sub = λ a b. a - b;
  mul = λ a b. a * b;
  gt = λ a b. ltb b a;
  ge = λ a b. leb b a;
}

counts-IsOrdered : IsOrdered counts
counts-IsOrdered = record {
  asym = λ a b h. ground arith;
  negtrans = λ a b c h k. ground arith;
  ge_not_lt = λ a b. ground arith;
}

compare-IsComparator : IsComparator compare
compare-IsComparator = record {
  sides = λ a b. ground arith;
  trans = λ a b c h k. ground arith;
  alike = λ a b c h. ground arith;
}

recombine_compare-IsComparator_example : IsComparator (recombine_compare 1 compare {F = ℕ})
recombine_compare-IsComparator_example =
    recombine_compare-IsComparator 1 compare compare-IsComparator

abbrev hypothesis : ℕ → WordsBitmap → ℕ → Hypothesis ℕ ℕ
hypothesis id covered score = record {
  core = record {
    id = id;
    prev_targets = [];
    target_phrase = [];
    source_completed = covered;
    curr_source_range = record { start_pos = 0; end_pos = 0 };
    curr_target_range = record { start_pos = 0; end_pos = 0 };
    word_deleted = false;
    score_breakdown = [];
    ff_states = λ i. 0;
    future_score = 0;
    total_score = score;
  };
  arc_list = [];
}

abbrev weak : Hypothesis ℕ ℕ
weak = hypothesis 1 (false ∷ true ∷ false ∷ []) 3

abbrev strong : Hypothesis ℕ ℕ
strong = hypothesis 2 (true ∷ false ∷ false ∷ []) 7

-- A better way to translate the words that `weak` translates.
abbrev better : Hypothesis ℕ ℕ
better = hypothesis 3 (false ∷ true ∷ false ∷ []) 5

abbrev stack : HypothesisStack ℕ ℕ
stack = record {
  hypos = weak ∷ strong ∷ [];
  best_score = 7;
  worst_score = 0;
  diversity_worst_score = [];
  beam_width = 0;
  max_hypo_stack_size = 2;
  min_hypo_stack_diversity = 0;
  n_best_is_enabled = false;
}

stack-Sorted : Sorted (order counts 1 compare) stack.hypos
unfolding recombine_compare compare_bitmaps
stack-Sorted = ((refl, tt), (tt, tt))

stack-IsValid : IsValid counts 1 compare stack
stack-IsValid = record {
  sound = record { sorted = stack-Sorted; bounded = (refl, (refl, tt)); limit = omega arith };
  fits = inr (omega arith);
}

add_prune-IsValid_example :
    Returns (IsValid counts 1 compare) (add_prune counts 1 compare 6 stack better)
add_prune-IsValid_example =
    add_prune-IsValid counts 1 compare counts-IsOrdered compare-IsComparator 6 stack better
      stack-IsValid (inl refl)

length-prune_to_size_example : length (prune_to_size counts 1 compare stack 1).hypos ≤ 1
length-prune_to_size_example = length-prune_to_size counts 1 compare stack 1 refl

strong_kept : Memᴰ strong (prune_to_size counts 1 compare stack 2).hypos
unfolding prune_to_size
strong_kept = Memᴰ.tail (Memᴰ.head refl)

-- The search over three words, with a distortion limit of 2 and phrases of at most two words.
abbrev nothing_yet : WordsRange
nothing_yet = record { start_pos = not_found; end_pos = not_found }

abbrev second_word : WordsRange
second_word = record { start_pos = 1; end_pos = 1 }

abbrev any_span : WordsRange → Bool
any_span r = true

abbrev blank : WordsBitmap
blank = false ∷ false ∷ false ∷ []

abbrev jumped : WordsBitmap
jumped = false ∷ true ∷ false ∷ []

second_word_listed :
    Memᴰ second_word
      (process_one_hypothesis (text 3) (pos 2) 2 Constraint.new any_span blank nothing_yet)
unfolding process_one_hypothesis text start_ok end_ok basic_checks check Constraint.new overlap
    get_first_gap_pos get_num_words_covered exceeds text_distance
second_word_listed = Memᴰ.tail (Memᴰ.tail (Memᴰ.head refl))

process_one_hypothesis-Expandable_example :
    Expandable (text 3) (pos 2) 2 Constraint.new any_span blank second_word
process_one_hypothesis-Expandable_example =
    process_one_hypothesis-Expandable (text 3) 2 Constraint.new any_span blank nothing_yet (pos 2)
      second_word second_word_listed

jumped_reached : Reach.Reach 3 2 2 Constraint.new any_span jumped second_word
unfolding Bitmap.new set_values
jumped_reached = Reach.Reach.expand second_word (Reach.Reach.start refl) second_word_listed refl

Reach-Window_example : Window 2 jumped
Reach-Window_example = Reach-Window 3 2 2 Constraint.new any_span (omega arith) jumped_reached

Reach-FitsWindow_example : FitsWindow jumped
Reach-FitsWindow_example =
    Reach-FitsWindow 3 2 2 Constraint.new any_span (omega arith) (omega arith) jumped_reached

Reach-get_id_example : jumped ≡ jumped
Reach-get_id_example =
    Reach-get_id 3 2 2 Constraint.new any_span (omega arith) (omega arith) jumped_reached
      jumped_reached refl

Reach-first_gap_ok_example :
    start_ok
      (text 3)
      (pos 2)
      2
      Constraint.new
      any_span
      jumped
      2
      second_word
      (get_first_gap_pos jumped)
    ≡ true
unfolding get_first_gap_pos
Reach-first_gap_ok_example =
    Reach-first_gap_ok 3 2 2 Constraint.new any_span (omega arith) jumped_reached (omega arith)
