-- ===== src/Training/Symal/Grow.antt =====
-- `printgrow` of scripts/training/symal/symal.cpp. A point is a pair (i, j) of an English and a
-- foreign position. The set of the current points is a list; it is iterated in the set's order by
-- passing over all positions, since points that are inserted behind the iterator are not visited
-- and those before it are. The matrix A is left out: A[i][j] is 2 where the point is in the set,
-- else 1 where only `b` has it and -1 where only `a` has it.
use moses.Base.{
  ℕ, zero, suc, ◌+◌, ◌-◌, Bool, true, false, not, ◌&&◌, ◌||◌, Option, none, some, List, [], ◌∷◌,
  ◌++◌, ltb, leb, ◌==◌, if◌then◌else◌, get_or, set, replicate, for_range,
}
use moses.Training.Symal.{Point, english_of, foreign_of}

-- A neighbour's offset in one direction: -1, 0 or 1.
pub data Offset : Type 0 where
  back : Offset
  same : Offset
  ahead : Offset

-- A position moved by an offset; positions start at 1, so that back from 1 is 0, which is outside.
abbrev pub move : Offset → ℕ → ℕ
move back i = i - 1
move same i = i
move ahead i = i + 1

abbrev pub neighbors : Bool → List (Offset × Offset)
neighbors diagonal =
    (back, same)
    ∷ (same, back)
    ∷ (ahead, same)
    ∷ (same, ahead)
    ∷ (if diagonal then (back, back) ∷ (back, ahead) ∷ (ahead, back) ∷ (ahead, ahead) ∷ [] else [])

-- `currentpoints`, `ea`, `fa` and `added`.
pub record Growth : Type 0 where
  pub points : List Point
  pub ea : List Bool
  pub fa : List Bool
  pub added : Bool

unfoldable pub is_member : Point → List Point → Bool
is_member (i, j) [] = false
is_member (i, j) ((k, l) ∷ ps) = (i == k && j == l) || is_member (i, j) ps

module _ (m : ℕ) (a : List ℕ) (n : ℕ) (b : List ℕ) where
  -- The insertion of a point, with the marks of its words.
  abbrev pub insert_point : ℕ → ℕ → Growth → Growth
  insert_point i j st = record {
    points = (i, j) ∷ st.points;
    ea = set st.ea i true;
    fa = set st.fa j true;
    added = true;
  }

  -- The loop that fills in the alignments: the points of the intersection are the first ones.
  unfoldable pub fill_in : ℕ → Growth → Growth
  fill_in j st =
      if ltb 0 (english_of m a n b j) && foreign_of m a n b (english_of m a n b j) == j
      then insert_point (english_of m a n b j) j st
      else st

  abbrev pub nothing : Growth
  nothing = record {
    points = [];
    ea = replicate (n + 1) false;
    fa = replicate (m + 1) false;
    added = false;
  }

  unfoldable pub start_points : Growth
  unfolding fill_in for_range
  start_points = for_range m 1 fill_in nothing

  abbrev pub covered : Growth → ℕ → ℕ → Bool
  covered st i j = get_or st.ea i false && get_or st.fa j false

  -- The test of one neighbour, and its insertion.
  unfoldable pub try_point : ℕ → ℕ → Growth → Growth
  try_point i j st =
      if (ltb 0 i && leb i n && ltb 0 j && leb j m)
        && (foreign_of m a n b i == j || english_of m a n b j == i)
        && not (covered st i j)
      then insert_point i j st
      else st

  unfoldable pub try_neighbors : List (Offset × Offset) → ℕ → ℕ → Growth → Growth
  unfolding try_point
  try_neighbors [] i j st = st
  try_neighbors ((o, p) ∷ os) i j st = try_neighbors os i j (try_point (move o i) (move p j) st)

  -- The iterator's visit of one position.
  unfoldable pub visit : Bool → ℕ → ℕ → Growth → Growth
  unfolding is_member try_neighbors
  visit diagonal i j st =
      if is_member (i, j) st.points then try_neighbors (neighbors diagonal) i j st else st

  -- A scan of the current alignment.
  unfoldable pub scan : Bool → Growth → Growth
  unfolding visit for_range
  scan diagonal st = for_range n 1 (λ i s. for_range m 1 (λ j t. visit diagonal i j t) s) st

  -- while (added), with fuel for the number of scans; none if it runs out.
  unfoldable pub grow : ℕ → Bool → Growth → Option Growth
  unfolding scan
  grow zero diagonal st = none
  grow (suc fuel) diagonal st =
      let next = scan diagonal (record st { added = false }) in
      let rest = grow fuel diagonal next in if next.added then rest else some next

  -- A union point that only one direction has and that was not inserted.
  abbrev pub is_inverse : Growth → ℕ → ℕ → Bool
  is_inverse st i j =
      foreign_of m a n b i == j
      && not (english_of m a n b j == i)
      && not (is_member (i, j) st.points)

  abbrev pub is_direct : Growth → ℕ → ℕ → Bool
  is_direct st i j =
      english_of m a n b j == i
      && not (foreign_of m a n b i == j)
      && not (is_member (i, j) st.points)

  -- The test for uncovered words in the final step.
  abbrev pub free_words : Bool → Growth → ℕ → ℕ → Bool
  free_words both_uncovered st i j =
      if both_uncovered
      then not (get_or st.ea i false) && not (get_or st.fa j false)
      else not (covered st i j)

  unfoldable pub finish_point : (Growth → ℕ → ℕ → Bool) → Bool → ℕ → ℕ → Growth → Growth
  unfolding is_member
  finish_point kind both_uncovered i j st =
      if kind st i j && free_words both_uncovered st i j then insert_point i j st else st

  -- One loop of the final step over the union's points.
  unfoldable pub finish : (Growth → ℕ → ℕ → Bool) → Bool → Growth → Growth
  unfolding finish_point for_range
  finish kind both_uncovered st =
      for_range n 1 (λ i s. for_range m 1 (λ j t. finish_point kind both_uncovered i j t) s) st

  unfoldable pub final_step : Bool → Bool → Growth → Growth
  unfolding finish
  final_step final both_uncovered st =
      if final
      then finish (λ s i j. is_direct s i j) both_uncovered
          (finish (λ s i j. is_inverse s i j) both_uncovered st)
      else st

  -- The printed points, in the set's order.
  unfoldable pub row_rounds : List Point → ℕ → ℕ → ℕ → List Point
  unfolding is_member
  row_rounds ps i zero j = []
  row_rounds ps i (suc r) j =
      let rest = row_rounds ps i r (j + 1) in
      if is_member (i, j) ps then (j - 1, i - 1) ∷ rest else rest

  unfoldable pub print_points : List Point → ℕ → ℕ → List Point
  unfolding row_rounds
  print_points ps zero i = []
  print_points ps (suc r) i = row_rounds ps i m 1 ++ print_points ps r (i + 1)

  -- `printgrow`. Every scan but the last covers a word, so n + m + 3 scans are enough.
  unfoldable pub grow_alignment : Bool → Bool → Bool → Option (List Point)
  unfolding start_points grow final_step print_points
  grow_alignment diagonal final both_uncovered = elim (grow (n + m + 3) diagonal start_points) [
    | none ↦ none
    | some grown ↦ some (print_points (final_step final both_uncovered grown).points n 1)
  ]
