-- ===== src/Decoder/Search/Reach.antt =====
-- What coverage the search can reach in a sentence under a distortion limit.
use moses.Base.{
  ℕ, ◌+◌, ◌-◌, ◌≤◌, ◌<◌, ◌≡◌, ap, ◌∙◌, ◌≢◌, inl, inr, Bool, true, false, List, arith, not_found,
  ltb, leb, Bool-cases, length, replicate, length-replicate, get_or-replicate, get_or-out, pos,
}
use mathlib.Core.List.{Memᴰ}
use moses.Coverage.Range.{WordsRange, get_num_words_covered}
use moses.Coverage.Bitmap
use moses.Coverage.Bitmap.{
  WordsBitmap, get_value, set_values, get_first_gap_pos, gap_or_size, last_or_zero, get_id, overlap,
}
use moses.Coverage.Bitmap.Cover.{
  length-set_values, get_num_words_covered-set_values, get_num_words_covered-le,
}
use moses.Reordering.Constraint.{ReorderingConstraint}
use moses.Decoder.Search.Spans.{process_one_hypothesis-Limited, process_one_hypothesis-Expandable}
use moses.Decoder.Search.{
  process_one_hypothesis, end_ok, text, text_distance, exceeds, start_ok, after_end,
}
use moses.Coverage.Bitmap.Extend.{get_value-extended, start_free}
use moses.Coverage.Bitmap.Ids.{FitsWindow, get_id_injective}
use moses.Coverage.Bitmap.Gaps.{FilledBelow, gap-le, get_first_gap_pos-cases}
use moses.Coverage.Bitmap.Window.{gap_or_size-IsStart, last_or_zero-IsEnd}

-- A hypothesis with coverage `b` whose last source span is `last`.
pub data Reach (size d max_phrase_length : ℕ) (rc : ReorderingConstraint)
    (has_options : WordsRange → Bool) : WordsBitmap → WordsRange → Type 0 where
  start :
      {last : WordsRange}
      → last ≡ record { start_pos = not_found; end_pos = not_found }
      → Reach size d max_phrase_length rc has_options (Bitmap.new size) last
  expand :
      {b c : WordsBitmap} {last : WordsRange} (r : WordsRange)
      → Reach size d max_phrase_length rc has_options b last
      → Memᴰ r (process_one_hypothesis (text size) (pos d) max_phrase_length rc has_options b last)
      → c ≡ set_values b r.start_pos r.end_pos true
      → Reach size d max_phrase_length rc has_options c r

-- No translated word lies `d` or more positions behind an untranslated one.
abbrev pub Window : ℕ → WordsBitmap → Type 0
Window d b = (i j : ℕ) → i < length b → get_value b i ≡ false → get_value b j ≡ true → j < i + d

module _ (size d max_phrase_length : ℕ) (rc : ReorderingConstraint)
    (has_options : WordsRange → Bool) (small : size < not_found) where
  abbrev Reached : WordsBitmap → WordsRange → Type 0
  Reached = Reach size d max_phrase_length rc has_options

  abbrev spans : WordsBitmap → WordsRange → List WordsRange
  spans = process_one_hypothesis (text size) (pos d) max_phrase_length rc has_options

  -- A span that does not start at the first gap ends at most `d` words behind it.
  jump_back :
      (b : WordsBitmap) (last r : WordsRange)
      → r.start_pos ≤ r.end_pos
      → r.end_pos < size
      → Memᴰ r (spans b last)
      → get_first_gap_pos b ≢ r.start_pos
      → r.end_pos + 1 ≤ get_first_gap_pos b + d
  unfolding end_ok text text_distance exceeds get_num_words_covered
  jump_back b last r le lt m ne = ground (
    arith,
    (process_one_hypothesis-Limited (text size) max_phrase_length rc has_options b last d r
        m).passes,
  )

  Reach-length : {b : WordsBitmap} {last : WordsRange} → Reached b last → length b ≡ size
  unfolding Bitmap.new
  Reach-length (start p) = length-replicate size false
  Reach-length (expand {b} r h m p) =
      ap (λ (t : WordsBitmap). length t) p
      ∙ length-set_values b r.start_pos r.end_pos true
      ∙ Reach-length h

  -- What `process_one_hypothesis-Expandable` says of a sentence.
  expansion :
      (b : WordsBitmap) (last r : WordsRange)
      → Memᴰ r (spans b last)
      → (r.start_pos ≤ r.end_pos) × (r.end_pos < size) × (overlap b r ≡ false)
  unfolding text
  expansion b last r m =
      let x =
        process_one_hypothesis-Expandable (text size) max_phrase_length rc has_options b last
          (pos d) r m in
      (x.ordered, x.within, x.free)

  Window-expand :
      (b : WordsBitmap) (last r : WordsRange)
      → length b ≡ size
      → Memᴰ r (spans b last)
      → Window d b
      → Window d (set_values b r.start_pos r.end_pos true)
  Window-expand b last r len m w i j l open_word done =
      let (le, lt, free) = expansion b last r m in
      let at_i = get_value-extended b r.start_pos r.end_pos i le (omega arith) in
      let at_j = get_value-extended b r.start_pos r.end_pos j le (omega arith) in
      let i_in : i < length b = omega (arith, length-set_values b r.start_pos r.end_pos true) in
      ground (arith, at_i, at_j, w i j i_in, gap-le b i i_in, jump_back b last r le lt m)

  Window-new : Window d (Bitmap.new size)
  unfolding Bitmap.new
  Window-new i j l f t = absurd (cc (t, get_or-replicate size j false))

  -- Under a distortion limit d, for a sentence shorter than NOT_FOUND: in every coverage that the
  -- search reaches, no translated word lies d or more positions behind an untranslated one.
  pub Reach-Window : {b : WordsBitmap} {last : WordsRange} → Reached b last → Window d b
  Reach-Window (start p) = Window-new
  Reach-Window (expand {b} {last = last} r h m p) =
      rw p (Window-expand b last r (Reach-length h) m (Reach-Window h))

  FitsWindow-of : (b : WordsBitmap) → length b < not_found → d ≤ 17 → Window d b → FitsWindow b
  FitsWindow-of b l h w =
      let (le, before, gap) = gap_or_size-IsStart b l in
      let (after, top) = last_or_zero-IsEnd b l in
      elim (Bool-cases (ltb (gap_or_size b) (length b))) [
        | inl inner ↦ elim top [
          | inl done ↦ omega (arith, w (gap_or_size b) (last_or_zero b) (ground arith) gap done)
          | inr zero_end ↦ omega arith
        ]
        | inr full ↦ elim top [
          | inl done ↦ elim (Bool-cases (ltb (last_or_zero b) (length b))) [
            | inl inside ↦ ground arith
            | inr out ↦ absurd (cc (done, get_or-out b (last_or_zero b) false (ground arith)))
          ]
          | inr zero_end ↦ omega arith
        ]
      ]

  -- With a distortion limit of at most 17 and a sentence shorter than NOT_FOUND, GetID's
  -- assertion on the last position and the first gap holds of all coverage that the search
  -- reaches.
  pub Reach-FitsWindow :
      {b : WordsBitmap} {last : WordsRange} → d ≤ 17 → Reached b last → FitsWindow b
  Reach-FitsWindow {b} h r = FitsWindow-of b (omega (arith, Reach-length r)) h (Reach-Window r)

  -- With a distortion limit of at most 17 and a sentence shorter than NOT_FOUND, hypotheses that
  -- the search reaches and whose coverage has the same id have the same coverage.
  pub Reach-get_id :
      {a b : WordsBitmap} {last last' : WordsRange}
      → d ≤ 17
      → Reached a last
      → Reached b last'
      → get_id a ≡ get_id b
      → a ≡ b
  Reach-get_id {a} {b} h ra rb e =
      let la = Reach-length ra in
      let lb = Reach-length rb in
      get_id_injective a b (omega arith) (omega arith) (Reach-FitsWindow h ra)
        (Reach-FitsWindow h rb) e

  start_near :
      (b : WordsBitmap) (last : WordsRange) (s : ℕ)
      → s ≤ d + after_end last
      → start_ok (text size) (pos d) max_phrase_length rc has_options b d last s ≡ true
  unfolding start_ok text
  start_near b last s h = ground arith

  -- The gap after an expansion is within the limit of the span's end.
  next_gap :
      (b : WordsBitmap) (last r : WordsRange) (g : ℕ)
      → length b ≡ size
      → Window d b
      → Memᴰ r (spans b last)
      → g < size
      → FilledBelow (set_values b r.start_pos r.end_pos true) g
      → g ≤ r.end_pos + 1 + d
  next_gap b last r g len w m l filled = elim (Bool-cases (leb g (r.end_pos + 1))) [
    | inl near ↦ ground arith
    | inr far ↦
        let (le, lt, free) = expansion b last r m in
        let before = filled (g - 1) (ground arith) in
        let done : get_value b (g - 1) ≡ true =
          ground (arith, get_value-extended b r.start_pos r.end_pos (g - 1) le (omega arith)) in
        let reach =
          w r.start_pos (g - 1) (omega arith) (start_free b r.start_pos r.end_pos le free) done in
        omega arith
  ]

  new_gap : 0 < size → get_first_gap_pos (Bitmap.new size) ≤ 0
  unfolding Bitmap.new
  new_gap h =
      gap-le (replicate size false) 0 (omega (arith, length-replicate size false))
        (get_or-replicate size 0 false)

  filled_to_gap :
      (b : WordsBitmap) → get_first_gap_pos b < size → FilledBelow b (get_first_gap_pos b)
  filled_to_gap b h = elim (get_first_gap_pos-cases b) [
    | inl (e, _) ↦ absurd (omega arith)
    | inr (_, _, before) ↦ before
  ]

  expanded_gap_ok :
      (b : WordsBitmap) (last r : WordsRange)
      → Reached b last
      → Memᴰ r (spans b last)
      → get_first_gap_pos (set_values b r.start_pos r.end_pos true) < size
      → start_ok
          (text size)
          (pos d)
          max_phrase_length
          rc
          has_options
          (set_values b r.start_pos r.end_pos true)
          d
          r
          (get_first_gap_pos (set_values b r.start_pos r.end_pos true))
        ≡ true
  expanded_gap_ok b last r h m l =
      let c = set_values b r.start_pos r.end_pos true in
      let (le, lt, free) = expansion b last r m in
      let near =
        next_gap b last r (get_first_gap_pos c) (Reach-length h) (Reach-Window h) m l
          (filled_to_gap c l) in
      start_near c r (get_first_gap_pos c) (ground arith)

  -- No dead end by distortion: for a sentence shorter than NOT_FOUND, from every hypothesis that
  -- the search reaches and that is not complete, the main loop's distortion test lets the first
  -- untranslated word be translated next.
  pub Reach-first_gap_ok :
      {b : WordsBitmap} {last : WordsRange}
      → Reached b last
      → get_first_gap_pos b < size
      → start_ok (text size) (pos d) max_phrase_length rc has_options b d last (get_first_gap_pos b)
        ≡ true
  Reach-first_gap_ok {last} (start p) l =
      start_near (Bitmap.new size) last (get_first_gap_pos (Bitmap.new size))
        (omega (arith, new_gap (omega arith)))
  Reach-first_gap_ok (expand {b} {last = last} r h m p) l =
      rw p (expanded_gap_ok b last r h m (rw p at l))

  -- For a sentence shorter than NOT_FOUND: an expansion moves a hypothesis to the stack of one
  -- more word for each word of the span, which is a later stack and one of the sentence.
  pub expand-stack :
      (b : WordsBitmap) (last r : WordsRange)
      → length b ≡ size
      → Memᴰ r (spans b last)
      → (Bitmap.get_num_words_covered (set_values b r.start_pos r.end_pos true)
          ≡ Bitmap.get_num_words_covered b + (r.end_pos + 1 - r.start_pos))
        × (Bitmap.get_num_words_covered b
            < Bitmap.get_num_words_covered (set_values b r.start_pos r.end_pos true))
        × (Bitmap.get_num_words_covered (set_values b r.start_pos r.end_pos true) ≤ size)
  expand-stack b last r len m =
      let (le, lt, free) = expansion b last r m in
      let sum = get_num_words_covered-set_values b r (le, omega arith) free in
      let bound = get_num_words_covered-le (set_values b r.start_pos r.end_pos true) in
      (sum, omega arith, omega (arith, length-set_values b r.start_pos r.end_pos true))
