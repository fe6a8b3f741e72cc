-- ===== src/Phrases/Word.antt =====
-- Word (moses/src/Word.h, Word.cpp): an array of MAX_NUM_FACTORS pointers to factors. A pointer is
-- NULL, `none`, or an address; FactorCollection holds each factor once, so equal addresses mean
-- equal factors.
use moses.Base.{
  ℕ, zero, suc, ◌+◌, compare, Ordering, Option, none, some, List, [], ◌∷◌, get_or, set,
}

abbrev pub max_num_factors : ℕ
max_num_factors = 4

abbrev pub Word : Type 0
Word = List (Option ℕ)

abbrev pub get_factor : Word → ℕ → Option ℕ
get_factor w i = get_or w i none

abbrev pub set_factor : Word → ℕ → Option ℕ → Word
set_factor w i factor = set w i factor

abbrev pub new_word : Word
new_word = none ∷ none ∷ none ∷ none ∷ []

-- The sign of one round in Compare, `eq` where it continues.
abbrev pub compare_factor : Option ℕ → Option ℕ → Ordering
compare_factor none b = Ordering.eq
compare_factor (some a) none = Ordering.eq
compare_factor (some a) (some b) = compare a b

unfoldable pub compare_rounds : ℕ → ℕ → Word → Word → Ordering
compare_rounds zero i target source = Ordering.eq
compare_rounds (suc n) i target source =
    let rest = compare_rounds n (i + 1) target source in
    elim (compare_factor (get_factor target i) (get_factor source i)) [
      | Ordering.eq ↦ rest
      | Ordering.lt ↦ Ordering.lt
      | Ordering.gt ↦ Ordering.gt
    ]

-- Word::Compare
unfoldable pub compare_words : Word → Word → Ordering
unfolding compare_rounds
compare_words target source = compare_rounds max_num_factors 0 target source

unfoldable pub merge_rounds : ℕ → ℕ → Word → Word → Word
merge_rounds zero i w source = w
merge_rounds (suc n) i w source =
    merge_rounds n (i + 1)
      (elim (get_factor w i) [
        | none ↦ elim (get_factor source i) [ none ↦ w | some f ↦ set_factor w i (some f) ]
        | some f ↦ w
      ])
      source

-- Word::Merge: factors that are missing are taken from `source`.
unfoldable pub merge : Word → Word → Word
unfolding merge_rounds
merge w source = merge_rounds max_num_factors 0 w source
