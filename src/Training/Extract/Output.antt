-- ===== src/Training/Extract/Output.antt =====
-- addPhrase and extractBase of scripts/training/phrase-extract/extract.cpp: what is written for a
-- phrase pair, as data. The files themselves and their parts of 1e7 phrases are left out.
use moses.Base.{
  ℕ, zero, suc, ◌+◌, ◌-◌, ◌≤◌, ◌<◌, min, ◌≡◌, refl, ap, not, ◌&&◌, List, [], ◌∷◌, ◌++◌, arith,
  if◌then◌else◌, length, get_or, ℤ, pos, negsuc,
}
use moses.Base.StdSet.{All, All-append}
use moses.Training.Extract.{SentenceAlignment, String, is_aligned, PhrasePair}
use moses.Training.Extract.Counts.{occurrences}
use moses.Training.Extract.Consistent.{IsConsistent}

pub data Orientation : Type 0 where
  mono : Orientation
  swap : Orientation
  other : Orientation

pub record Entry : Type 0 where
  pub foreign_words : List String
  pub english_words : List String
  pub points : List (ℕ × ℕ)
  pub previous : Orientation
  pub following : Orientation

-- The words of a loop with `n` rounds from `first` on.
unfoldable pub words_from : List String → ℕ → ℕ → List String
words_from ws zero first = []
words_from ws (suc n) first = get_or ws first "" ∷ words_from ws n (first + 1)

-- The points of one English word; the file has them in this order, the inverse file exchanged.
unfoldable pub row_points : ℕ → ℕ → List ℕ → List (ℕ × ℕ)
row_points start_f row [] = []
row_points start_f row (fi ∷ fs) = (fi - start_f, row) ∷ row_points start_f row fs

module _ (max_phrase_length : ℕ) (s : SentenceAlignment) where
  unfoldable pub point_rounds : ℕ → ℕ → ℕ → ℕ → List (ℕ × ℕ)
  unfolding row_points
  point_rounds start_f start_e zero ei = []
  point_rounds start_f start_e (suc n) ei =
      row_points start_f (ei - start_e) (get_or s.aligned_to_e ei [])
      ++ point_rounds start_f start_e n (ei + 1)

  -- startF - 1 and startE - 1
  abbrev pub before : ℕ → ℤ
  before p = elim p [ zero ↦ negsuc 0 | suc n ↦ pos n ]

  -- The orientation to the previous English word.
  unfoldable pub orientation_to_previous : PhrasePair → Orientation
  unfolding is_aligned
  orientation_to_previous r =
      let left_top = is_aligned max_phrase_length s (before r.start_f) (before r.start_e) in
      let right_top = is_aligned max_phrase_length s (pos (r.end_f + 1)) (before r.start_e) in
      if left_top && not right_top then mono else if not left_top && right_top then swap else other

  -- The orientation to the following English word.
  unfoldable pub orientation_to_following : PhrasePair → Orientation
  unfolding is_aligned
  orientation_to_following r =
      let left_bottom = is_aligned max_phrase_length s (before r.start_f) (pos (r.end_e + 1)) in
      let right_bottom = is_aligned max_phrase_length s (pos (r.end_f + 1)) (pos (r.end_e + 1)) in
      if left_bottom && not right_bottom
      then swap
      else if not left_bottom && right_bottom
      then mono
      else other

  -- `addPhrase`, without --OnlyOutputSpanInfo.
  unfoldable pub add_phrase : PhrasePair → Entry
  unfolding point_rounds words_from orientation_to_previous orientation_to_following
  add_phrase r = record {
    foreign_words = words_from s.foreign (r.end_f + 1 - r.start_f) r.start_f;
    english_words = words_from s.english (r.end_e + 1 - r.start_e) r.start_e;
    points = point_rounds r.start_f r.start_e (r.end_e + 1 - r.start_e) r.start_e;
    previous = orientation_to_previous r;
    following = orientation_to_following r;
  }

  -- The phrases of `extractBase` that start at `start`, for `n` ends.
  unfoldable pub base_ends : List String → ℕ → ℕ → ℕ → List (List String)
  unfolding words_from
  base_ends ws start zero end_pos = []
  base_ends ws start (suc n) end_pos =
      words_from ws (end_pos + 1 - start) start ∷ base_ends ws start n (end_pos + 1)

  unfoldable pub base_rounds : List String → ℕ → ℕ → List (List String)
  unfolding base_ends
  base_rounds ws zero start = []
  base_rounds ws (suc n) start =
      base_ends ws start (min max_phrase_length (length ws - start)) start
      ++ base_rounds ws n (start + 1)

  -- `extractBase`: all phrases of the foreign and of the English sentence.
  unfoldable pub extract_base : List (List String) × List (List String)
  unfolding base_rounds
  extract_base =
      (base_rounds s.foreign (length s.foreign) 0, base_rounds s.english (length s.english) 0)

length-words_from : (ws : List String) (n first : ℕ) → length (words_from ws n first) ≡ n
unfolding words_from
length-words_from ws zero first = refl
length-words_from ws (suc n) first = ap suc (length-words_from ws n (first + 1))

abbrev Inside : ℕ → ℕ → ℕ × ℕ → Type 0
Inside foreign english pt = (pt.0 < foreign) × (pt.1 < english)

row_points-All :
    (start_f end_f row rows : ℕ) (fs : List ℕ)
    → row < rows
    → ((f : ℕ) → 0 < occurrences f fs → (start_f ≤ f) × (f ≤ end_f))
    → All (Inside (end_f + 1 - start_f) rows) (row_points start_f row fs)
unfolding row_points
row_points-All start_f end_f row rows [] l h = tt
row_points-All start_f end_f row rows (x ∷ fs) l h =
    let here = h x (ground arith) in
    ((omega arith, l), row_points-All start_f end_f row rows fs l (λ f o. h f (ground arith)))

module _ (max_phrase_length : ℕ) (s : SentenceAlignment) (r : PhrasePair)
    (v : IsConsistent max_phrase_length s r) where
  abbrev InPair : ℕ × ℕ → Type 0
  InPair = Inside (r.end_f + 1 - r.start_f) (r.end_e + 1 - r.start_e)

  point_rounds-All :
      (n ei : ℕ)
      → r.start_e ≤ ei
      → (0 < n → ei + n ≤ r.end_e + 1)
      → All InPair (point_rounds max_phrase_length s r.start_f r.start_e n ei)
  unfolding point_rounds
  point_rounds-All zero ei l u = tt
  point_rounds-All (suc n) ei l u =
      All-append InPair (row_points r.start_f (ei - r.start_e) (get_or s.aligned_to_e ei []))
        (point_rounds max_phrase_length s r.start_f r.start_e n (ei + 1))
        (row_points-All r.start_f r.end_f (ei - r.start_e) (r.end_e + 1 - r.start_e)
          (get_or s.aligned_to_e ei []) (omega (arith, u))
          (λ f o. v.to_f ei f l (omega (arith, u)) o))
        (point_rounds-All n (ei + 1) (omega arith) (λ some. omega (arith, u)))

  -- For a consistent phrase pair, the alignment points that addPhrase writes are positions of the
  -- words that it writes.
  pub add_phrase-inside :
      All
        (λ pt.
          (pt.0 < length (add_phrase max_phrase_length s r).foreign_words)
          × (pt.1 < length (add_phrase max_phrase_length s r).english_words))
        (add_phrase max_phrase_length s r).points
  unfolding add_phrase
  add_phrase-inside =
      rw
        (
          length-words_from s.foreign (r.end_f + 1 - r.start_f) r.start_f,
          length-words_from s.english (r.end_e + 1 - r.start_e) r.start_e,
        )
        (point_rounds-All (r.end_e + 1 - r.start_e) r.start_e (omega arith)
          (λ some. omega (arith, v.ordered_e)))
