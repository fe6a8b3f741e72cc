-- ===== src/Coverage/Bitmap/Edges.antt =====
-- The nearest translated words on both sides of a position, which bound a word lattice's gap.
use moses.Coverage.Bitmap.{
  WordsBitmap, get_value, get_edge_to_the_left_of, right_rounds, get_edge_to_the_right_of, ℕ,
}
use moses.Coverage.Bitmap.Cover.{FreeAt, FreeAt-grow}
use moses.Base.{
  zero, suc, ◌+◌, ◌-◌, ◌≤◌, ◌<◌, ◌≡◌, refl, ◌⊎◌, inl, inr, true, false, not, ◌&&◌, arith, ltb, ◌==◌,
  Bool-cases, length,
}
use native.Mathlib.Numerals.{sub-one}

FreeAt-snoc :
    (b : WordsBitmap) (lo hi : ℕ) → get_value b hi ≡ false → FreeAt b lo hi → FreeAt b lo (suc hi)
FreeAt-snoc b lo hi e h i l u = elim (Bool-cases (hi == i)) [
  | inl same ↦ (let p : hi ≡ i = ground arith in rw p at e)
  | inr other ↦ h i l (ground arith)
]

-- GetEdgeToTheLeftOf goes left over untranslated words only, up to the start of the sentence or
-- a translated word.
pub get_edge_to_the_left_of_bounds :
    (b : WordsBitmap) (l : ℕ)
    → (get_edge_to_the_left_of b l ≤ l)
      × FreeAt b (get_edge_to_the_left_of b l) l
      × ((get_edge_to_the_left_of b l ≡ 0) ⊎ (get_value b (get_edge_to_the_left_of b l - 1) ≡ true))
unfolding get_edge_to_the_left_of
get_edge_to_the_left_of_bounds b zero = (omega arith, λ i h u. absurd (omega arith), inl refl)
get_edge_to_the_left_of_bounds b (suc l) = elim (Bool-cases (get_value b l)) [
  | inl t ↦ rw t (omega arith, λ i h u. absurd (omega arith), inr (rw sub-one t))
  | inr f ↦
      let (le, free, stop) = get_edge_to_the_left_of_bounds b l in
      rw f (omega arith, FreeAt-snoc b (get_edge_to_the_left_of b l) l f free, stop)
]

right_rounds_bounds :
    (b : WordsBitmap) (fuel r : ℕ)
    → r < length b
    → length b ≤ r + 1 + fuel
    → (r ≤ right_rounds b fuel r)
      × FreeAt b (r + 1) (right_rounds b fuel r + 1)
      × ((right_rounds b fuel r + 1 ≡ length b) ⊎ (get_value b (right_rounds b fuel r + 1) ≡ true))
unfolding right_rounds
right_rounds_bounds b zero r l h = (omega arith, λ i a u. absurd (omega arith), inl (omega arith))
right_rounds_bounds b (suc fuel) r l h =
    elim (Bool-cases (ltb (r + 1) (length b) && not (get_value b (r + 1)))) [
      | inl go ↦
          let (le, free, stop) = right_rounds_bounds b fuel (r + 1) (ground arith) (omega arith) in
          rw go (
            omega arith,
            FreeAt-grow b (r + 1) (right_rounds b fuel (r + 1) + 1) (ground arith) free,
            stop,
          )
      | inr end ↦ rw end (
        omega arith,
        λ i a u. absurd (omega arith),
        elim (Bool-cases (get_value b (r + 1))) [ inl t ↦ inr t | inr f ↦ inl (ground arith) ],
      )
    ]

-- GetEdgeToTheRightOf goes right over untranslated words only, up to the end of the sentence or
-- to just before a translated word; its loop ends within `m_size` rounds.
pub get_edge_to_the_right_of_bounds :
    (b : WordsBitmap) (r : ℕ)
    → r < length b
    → (r ≤ get_edge_to_the_right_of b r)
      × FreeAt b (r + 1) (get_edge_to_the_right_of b r + 1)
      × ((get_edge_to_the_right_of b r + 1 ≡ length b)
          ⊎ (get_value b (get_edge_to_the_right_of b r + 1) ≡ true))
unfolding get_edge_to_the_right_of
get_edge_to_the_right_of_bounds b r l = elim (Bool-cases ((r + 1) == length b)) [
  | inl end ↦ rw end (omega arith, λ i a u. absurd (omega arith), inl (ground arith))
  | inr more ↦ rw more (right_rounds_bounds b (length b) r l (omega arith))
]
