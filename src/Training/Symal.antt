-- ===== src/Training/Symal.antt =====
-- scripts/training/symal/symal.cpp: the symmetrised alignments of two directed ones. `a` gives the
-- English position of each of the `m` foreign words and `b` the foreign position of each of the `n`
-- English words, both from 1 on, with 0 for none. A printed point "j-i" is the pair (j, i).
pub mod Points
pub mod Grow
mod Growth
pub mod Between
use moses.Base.{
  ℕ, zero, suc, ◌+◌, ◌-◌, Bool, not, ◌&&◌, List, [], ◌∷◌, ◌++◌, ltb, ◌==◌, if◌then◌else◌, get_or,
}

abbrev pub Point : Type 0
Point = ℕ × ℕ

-- One round of a loop that prints a point or nothing, for the positions first to first + n - 1.
unfoldable pub print_rounds : (ℕ → Bool) → (ℕ → Point) → ℕ → ℕ → List Point
print_rounds test point zero first = []
print_rounds test point (suc n) first =
    let rest = print_rounds test point n (first + 1) in
    if test first then point first ∷ rest else rest

module _ (m : ℕ) (a : List ℕ) (n : ℕ) (b : List ℕ) where
  abbrev pub english_of : ℕ → ℕ
  english_of j = get_or a j 0

  abbrev pub foreign_of : ℕ → ℕ
  foreign_of i = get_or b i 0

  -- `printsrctotgt`
  unfoldable pub src_to_tgt : List Point
  unfolding print_rounds
  src_to_tgt = print_rounds (λ j. ltb 0 (english_of j)) (λ j. (j - 1, english_of j - 1)) m 1

  -- `printtgttosrc`
  unfoldable pub tgt_to_src : List Point
  unfolding print_rounds
  tgt_to_src = print_rounds (λ i. ltb 0 (foreign_of i)) (λ i. (foreign_of i - 1, i - 1)) n 1

  -- `printersect`
  unfoldable pub intersect : List Point
  unfolding print_rounds
  intersect =
      print_rounds (λ j. ltb 0 (english_of j) && foreign_of (english_of j) == j)
        (λ j. (j - 1, english_of j - 1)) m 1

  -- `prunionalignment`: the points of `a`, then those of `b` that are not among them.
  unfoldable pub union_alignment : List Point
  unfolding print_rounds
  union_alignment =
      print_rounds (λ j. ltb 0 (english_of j)) (λ j. (j - 1, english_of j - 1)) m 1
      ++ print_rounds (λ i. ltb 0 (foreign_of i) && not (english_of (foreign_of i) == i))
          (λ i. (foreign_of i - 1, i - 1)) n 1
