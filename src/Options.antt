-- ===== src/Options.antt =====
-- Partial translation options: moses/src/PartialTranslOptColl.h and PartialTranslOptColl.cpp. The
-- collection owns its options: one that is deleted is left out of the list.
pub mod Pruned
mod Examples
use moses.Base.{
  ℕ, zero, suc, ◌+◌, ◌-◌, ◌*◌, ◌%◌, Option, none, some, List, [], ◌∷◌, ◌++◌, ltb, leb,
  if◌then◌else◌, length, sub64,
}
use moses.FutureCost.Float.{Floats}

pub record PartialTranslOptColl (F O : Type 0) : Type 0 where
  pub list : List O
  pub best_score : F
  pub worst_score : F
  pub max_size : ℕ
  pub total_pruned : ℕ

-- `n` more options were deleted; size_t wraps around.
abbrev count_pruned : ℕ → ℕ → ℕ
count_pruned total n = (total + n) % 18446744073709551616

abbrev first {ℓ} : {A : Type ℓ} → ℕ → List A → List A
first zero xs = []
first (suc n) [] = []
first (suc n) (x ∷ xs) = x ∷ first n xs

abbrev rest_from {ℓ} : {A : Type ℓ} → ℕ → List A → List A
rest_from zero xs = xs
rest_from (suc n) [] = []
rest_from (suc n) (x ∷ xs) = rest_from n xs

abbrev at {ℓ} : {A : Type ℓ} → List A → ℕ → Option A
at [] i = none
at (x ∷ xs) zero = some x
at (x ∷ xs) (suc i) = at xs i

-- `calc_score` is TranslationOption::CalcScore, `future_score` GetFutureScore(), and
-- `nth_element n xs` what std::nth_element by ComparePartialTranslationOption leaves.
module _ {F O : Type 0} (fl : Floats F) (calc_score : O → O) (future_score : O → F)
    (nth_element : ℕ → List O → List O) where
  abbrev Coll : Type 0
  Coll = PartialTranslOptColl F O

  unfoldable new_coll : ℕ → Coll
  new_coll max_size = record {
    list = [];
    best_score = fl.neg_infinity;
    worst_score = fl.neg_infinity;
    max_size = max_size;
    total_pruned = 0;
  }

  unfoldable detach_all : Coll → Coll
  detach_all c = record c { list = [] }

  add_no_prune : O → Coll → Coll
  add_no_prune new c =
      let o = calc_score new in
      if fl.ge (future_score o) c.worst_score
      then record c {
        list = c.list ++ o ∷ [];
        best_score = if fl.gt (future_score o) c.best_score then future_score o else c.best_score;
      }
      else record c { total_pruned = count_pruned c.total_pruned 1 }

  -- The list after nth_element is cut; the option before the cut gives the bound. The result is
  -- none where m_list[ m_maxSize-1 ] is out of bounds.
  cut : Coll → List O → Option Coll
  cut c xs = elim (at xs (sub64 c.max_size 1)) [
    | none ↦ none
    | some o ↦ some (record c {
      list = first c.max_size xs;
      worst_score = future_score o;
      total_pruned = count_pruned c.total_pruned (length xs - c.max_size);
    })
  ]

  pub prune : Coll → Option Coll
  unfolding cut
  prune c = if leb (length c.list) c.max_size then some c else cut c (nth_element c.max_size c.list)

  pub add_partial : O → Coll → Option Coll
  unfolding add_no_prune prune
  add_partial o c =
      let c' = add_no_prune o c in
      if ltb (2 * c'.max_size % 18446744073709551616) (length c'.list) then prune c' else some c'
