-- ===== src/Decoder/Hypothesis.antt =====
-- moses/src/Hypothesis.h and Hypothesis.cpp: the data of a hypothesis, its recombination order and
-- its arcs.
pub mod Order
pub mod Build
use moses.Base.{ℕ, zero, suc, ◌+◌, ◌*◌, Ordering, Bool, List, [], ◌∷◌, ◌++◌}
use moses.Coverage.Range.{WordsRange}
use moses.Phrases.Phrase.{Phrase}
use moses.Coverage.Bitmap.{WordsBitmap, compare_bitmaps}

-- A hypothesis but for its arcs. `S` is the type of the feature functions' states, `F` that of
-- scores. In place of the pointer m_prevHypo there are the target phrases that it leads to, the
-- latest first.
pub record Core (F S : Type 0) : Type 0 where
  pub id : ℕ
  pub prev_targets : List Phrase
  pub target_phrase : Phrase
  pub source_completed : WordsBitmap
  pub curr_source_range : WordsRange
  pub curr_target_range : WordsRange
  pub word_deleted : Bool
  pub score_breakdown : List F
  pub ff_states : ℕ → S
  pub future_score : F
  pub total_score : F

-- A hypothesis with its arcs. An arc has no arcs of its own: AddArc moves them to the winner.
pub record Hypothesis (F S : Type 0) : Type 0 where
  pub core : Core F S
  pub open core use *
  pub arc_list : List (Core F S)

module _ {F S : Type 0} where
  -- The winner afterwards; the loser is one of its arcs and has none itself.
  unfoldable pub add_arc : Hypothesis F S → Hypothesis F S → Hypothesis F S
  add_arc winner loser = record winner {
    arc_list = (winner.arc_list ++ loser.arc_list) ++ loser.core ∷ [];
  }

-- `compare_state` is the sign of FFState::Compare, or of the difference of pointers where one is
-- NULL; the classes of states belong to the feature functions. Every hypothesis has `num_ffs`
-- states.
module _ {S : Type 0} (num_ffs : ℕ) (compare_state : S → S → Ordering) where
  -- The loop over m_ffStates, with the rounds left.
  compare_states : ℕ → ℕ → (ℕ → S) → (ℕ → S) → Ordering
  compare_states zero i x y = Ordering.eq
  compare_states (suc n) i x y =
      let rest = compare_states n (i + 1) x y in
      elim (compare_state (x i) (y i)) [
        | Ordering.eq ↦ rest
        | Ordering.lt ↦ Ordering.lt
        | Ordering.gt ↦ Ordering.gt
      ]

  unfoldable pub recombine_compare : {F : Type 0} → Hypothesis F S → Hypothesis F S → Ordering
  unfolding compare_states
  recombine_compare a b = elim (compare_bitmaps a.source_completed b.source_completed) [
    | Ordering.eq ↦ compare_states num_ffs 0 a.ff_states b.ff_states
    | Ordering.lt ↦ Ordering.lt
    | Ordering.gt ↦ Ordering.gt
  ]
