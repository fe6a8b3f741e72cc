-- ===== src/Reordering/Walls.antt =====
-- A reordering wall separates the sentence: no word behind it is translated before all words up
-- to it are.
use moses.Base.{
  ℕ, zero, suc, ◌+◌, ◌-◌, ◌≤◌, ◌<◌, ◌≡◌, ◌≢◌, inl, inr, true, false, arith, ltb, ◌==◌, Bool-cases,
  length, get_or-replicate,
}
use moses.Coverage.Bitmap.{WordsBitmap, get_value, get_first_gap_pos, overlap, set_values}
use moses.Coverage.Bitmap
use moses.Coverage.Bitmap.Extend.{get_value-extended, get_first_gap_pos-IsFirstGap}
use moses.Reordering.Constraint.{ReorderingConstraint, get_wall, check, wall_rounds}

-- The coverage that extensions which pass the check can reach in a sentence of `size` words.
pub data Reach (rc : ReorderingConstraint) (max_distortion size : ℕ) : WordsBitmap → Type 0 where
  start : Reach rc max_distortion size (Bitmap.new size)
  extend :
      {b c : WordsBitmap} (s e : ℕ)
      → Reach rc max_distortion size b
      → s ≤ e
      → e < length b
      → overlap b (record { start_pos = s; end_pos = e }) ≡ false
      → check rc max_distortion b s e ≡ true
      → c ≡ set_values b s e true
      → Reach rc max_distortion size c

-- No word behind `w` is translated before all words up to `w` are.
abbrev pub KeepsWall : ℕ → WordsBitmap → Type 0
KeepsWall w b = (i j : ℕ) → i ≤ w → w < j → get_value b j ≡ true → get_value b i ≡ true

wall_rounds-false :
    (rc : ReorderingConstraint) (n p w : ℕ)
    → wall_rounds rc n p ≡ false
    → p ≤ w
    → w < p + n
    → get_wall rc w ≡ false
unfolding wall_rounds
wall_rounds-false rc zero p w h l u = absurd (omega arith)
wall_rounds-false rc (suc n) p w h l u = elim (Bool-cases (p == w)) [
  | inl here ↦ (let e : p ≡ w = ground arith in rw (← e) (ground arith))
  | inr further ↦ wall_rounds-false rc n (p + 1) w (ground arith) (ground arith) (omega arith)
]

-- An extension that passes the check and does not start at the first gap ends before every wall
-- that is not wholly behind it.
wall_ahead :
    (rc : ReorderingConstraint) (d : ℕ) (b : WordsBitmap) (s e w : ℕ)
    → rc.active ≡ true
    → check rc d b s e ≡ true
    → get_first_gap_pos b ≢ s
    → get_wall rc w ≡ true
    → w < e
    → w < get_first_gap_pos b
unfolding check
wall_ahead rc d b s e w on ok ne wall h = elim (Bool-cases (ltb w (get_first_gap_pos b))) [
  | inl before ↦ ground arith
  | inr after ↦
      let g = get_first_gap_pos b in
      let clear : wall_rounds rc (e - g) g ≡ false = ground arith in
      absurd (cc (wall, wall_rounds-false rc (e - g) g w clear (ground arith) (ground arith)))
]

KeepsWall-extend :
    (rc : ReorderingConstraint) (d : ℕ) (b : WordsBitmap) (s e w : ℕ)
    → rc.active ≡ true
    → get_wall rc w ≡ true
    → KeepsWall w b
    → s ≤ e
    → e < length b
    → overlap b (record { start_pos = s; end_pos = e }) ≡ false
    → check rc d b s e ≡ true
    → KeepsWall w (set_values b s e true)
KeepsWall-extend rc d b s e w on wall keeps ordered inside free ok i j le lt t =
    let first = get_first_gap_pos-IsFirstGap b s e ordered inside free in
    ground (
      arith,
      get_value-extended b s e i ordered inside,
      get_value-extended b s e j ordered inside,
      first.below,
      first.filled i,
      keeps i j le lt,
      wall_ahead rc d b s e w on ok,
    )

KeepsWall-new : (size w : ℕ) → KeepsWall w (Bitmap.new size)
unfolding Bitmap.new
KeepsWall-new size w i j le lt t = absurd (cc (t, get_or-replicate size j false))

-- In every coverage that checked extensions reach, a wall of an active constraint is kept: as long
-- as a word up to the wall is untranslated, so is every word behind it.
pub Reach-KeepsWall :
    (rc : ReorderingConstraint) (d size w : ℕ) {b : WordsBitmap}
    → rc.active ≡ true
    → get_wall rc w ≡ true
    → Reach rc d size b
    → KeepsWall w b
Reach-KeepsWall rc d size w on wall start = KeepsWall-new size w
Reach-KeepsWall rc d size w on wall (extend {b} s e r ordered inside free ok p) = rw p (
    KeepsWall-extend rc d b s e w on wall (Reach-KeepsWall rc d size w on wall r) ordered inside
      free ok)
