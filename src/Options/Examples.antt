-- ===== src/Options/Examples.antt =====
-- Options that are their own scores, natural numbers, in collections of at most two.
use mathlib.Core.List.{Memᴰ}
use mathlib.Core.List.Memᴰ
use moses.Base.{
  ℕ, zero, suc, ◌+◌, ◌-◌, ◌*◌, ◌≤◌, ◌≡◌, refl, inl, inr, none, some, List, [], ◌∷◌, arith, ltb, leb,
  if◌then◌else◌, length, if_inv, if_cases,
}
use moses.Base.StdSet.{All, All-mem}
use moses.FutureCost.Float.{Floats}
use moses.Options.{PartialTranslOptColl, first, rest_from, prune, add_partial, new_coll}
use moses.Options.Pruned.{IsNthElement, IsPruned, IsBounded, prune-IsPruned, add_partial-IsBounded}

abbrev counts : Floats ℕ
counts = record {
  zero_float = 0;
  neg_infinity = 0;
  add = λ a b. a + b;
  sub = λ a b. a - b;
  mul = λ a b. a * b;
  gt = λ a b. ltb b a;
  ge = λ a b. leb b a;
}

abbrev same_number : ℕ → ℕ
same_number a = a

-- One way to do std::nth_element: sort the whole list, the largest number first.
place : ℕ → List ℕ → List ℕ
place a [] = a ∷ []
place a (x ∷ xs) = let rest = place a xs in if ltb a x then x ∷ rest else a ∷ x ∷ xs

descend : ℕ → List ℕ → List ℕ
unfolding place
descend n [] = []
descend n (x ∷ xs) = place x (descend n xs)

abbrev Down : List ℕ → Type 0
Down [] = Unit
Down (x ∷ xs) = All (λ y. y ≤ x) xs × Down xs

length-place : (a : ℕ) (xs : List ℕ) → length (place a xs) ≡ length xs + 1
unfolding place
length-place a [] = refl
length-place a (x ∷ xs) =
    if_cases (λ (ys : List ℕ). length ys ≡ length (x ∷ xs) + 1) (ltb a x) (x ∷ place a xs)
      (a ∷ x ∷ xs) (λ h. omega (arith, length-place a xs)) (λ h. omega arith)

length-descend : (n : ℕ) (xs : List ℕ) → length (descend n xs) ≡ length xs
unfolding descend
length-descend n [] = refl
length-descend n (x ∷ xs) = omega (arith, length-place x (descend n xs), length-descend n xs)

mem-place : (a y : ℕ) (xs : List ℕ) → Memᴰ y (a ∷ xs) → Memᴰ y (place a xs)
unfolding place
mem-place a y [] m = m
mem-place a y (x ∷ xs) m =
    if_inv (Memᴰ y) (ltb a x) (x ∷ place a xs) (a ∷ x ∷ xs)
      (elim (Memᴰ.cases_cons m) [
        | inl here ↦ Memᴰ.tail (mem-place a y xs (Memᴰ.head here))
        | inr later ↦ elim (Memᴰ.cases_cons later) [
          | inl here ↦ Memᴰ.head here
          | inr there ↦ Memᴰ.tail (mem-place a y xs (Memᴰ.tail there))
        ]
      ])
      m

mem_of_place : (a y : ℕ) (xs : List ℕ) → Memᴰ y (place a xs) → Memᴰ y (a ∷ xs)
unfolding place
mem_of_place a y [] m = m
mem_of_place a y (x ∷ xs) m =
    if_inv (λ ys. Memᴰ y ys → Memᴰ y (a ∷ x ∷ xs)) (ltb a x) (x ∷ place a xs) (a ∷ x ∷ xs)
      (λ k. elim (Memᴰ.cases_cons k) [
        | inl here ↦ Memᴰ.tail (Memᴰ.head here)
        | inr later ↦ elim (Memᴰ.cases_cons (mem_of_place a y xs later)) [
          | inl here ↦ Memᴰ.head here
          | inr there ↦ Memᴰ.tail (Memᴰ.tail there)
        ]
      ])
      (λ k. k) m

mem-descend : (n y : ℕ) (xs : List ℕ) → Memᴰ y xs → Memᴰ y (descend n xs)
unfolding descend
mem-descend n y [] m = m
mem-descend n y (x ∷ xs) m = mem-place x y (descend n xs) (elim (Memᴰ.cases_cons m) [
  | inl here ↦ Memᴰ.head here
  | inr later ↦ Memᴰ.tail (mem-descend n y xs later)
])

mem_of_descend : (n y : ℕ) (xs : List ℕ) → Memᴰ y (descend n xs) → Memᴰ y xs
unfolding descend
mem_of_descend n y [] m = m
mem_of_descend n y (x ∷ xs) m = elim (Memᴰ.cases_cons (mem_of_place x y (descend n xs) m)) [
  | inl here ↦ Memᴰ.head here
  | inr later ↦ Memᴰ.tail (mem_of_descend n y xs later)
]

All-place : (b a : ℕ) (xs : List ℕ) → a ≤ b → All (λ y. y ≤ b) xs → All (λ y. y ≤ b) (place a xs)
unfolding place
All-place b a [] h s = (h, tt)
All-place b a (x ∷ xs) h s =
    if_inv (All (λ y. y ≤ b)) (ltb a x) (x ∷ place a xs) (a ∷ x ∷ xs) (s.0, All-place b a xs h s.1)
      (h, s)

All-below : (a b : ℕ) (xs : List ℕ) → a ≤ b → All (λ y. y ≤ a) xs → All (λ y. y ≤ b) xs
All-below a b [] h s = tt
All-below a b (x ∷ xs) h s = (omega (arith, h, s.0), All-below a b xs h s.1)

place-Down : (a : ℕ) (xs : List ℕ) → Down xs → Down (place a xs)
unfolding place
place-Down a [] s = (tt, tt)
place-Down a (x ∷ xs) s =
    if_cases Down (ltb a x) (x ∷ place a xs) (a ∷ x ∷ xs)
      (λ h. (All-place x a xs (ground (arith, h)) s.0, place-Down a xs s.1))
      (λ h. let le : x ≤ a = ground (arith, h) in ((le, All-below x a xs le s.0), s))

descend-Down : (n : ℕ) (xs : List ℕ) → Down (descend n xs)
unfolding descend
descend-Down n [] = tt
descend-Down n (x ∷ xs) = place-Down x (descend n xs) (descend-Down n xs)

mem_of_rest_from : (n o : ℕ) (xs : List ℕ) → Memᴰ o (rest_from n xs) → Memᴰ o xs
mem_of_rest_from zero o xs m = m
mem_of_rest_from (suc n) o [] m = m
mem_of_rest_from (suc n) o (x ∷ xs) m = Memᴰ.tail (mem_of_rest_from n o xs m)

Down-apart :
    (n o k : ℕ) (xs : List ℕ) → Down xs → Memᴰ o (rest_from n xs) → Memᴰ k (first n xs) → o ≤ k
Down-apart zero o k xs s m f = absurd (Memᴰ.not-nil f)
Down-apart (suc n) o k [] s m f = absurd (Memᴰ.not-nil f)
Down-apart (suc n) o k (x ∷ xs) s m f = elim (Memᴰ.cases_cons f) [
  | inl here ↦
      let le = All-mem (λ y. y ≤ x) xs o s.0 (mem_of_rest_from n o xs m) in omega (arith, le, here)
  | inr later ↦ Down-apart n o k xs s.1 m later
]

descend-IsNthElement : IsNthElement counts same_number descend
descend-IsNthElement = record {
  length_kept = length-descend;
  mem_to = λ n xs o m. mem-descend n o xs m;
  mem_from = λ n xs o m. mem_of_descend n o xs m;
  apart = λ n xs o k h m f.
      let le = Down-apart n o k (descend n xs) (descend-Down n xs) m f in ground (arith, le);
}

abbrev three_options : PartialTranslOptColl ℕ ℕ
three_options = record {
  list = 3 ∷ 1 ∷ 9 ∷ [];
  best_score = 9;
  worst_score = 0;
  max_size = 2;
  total_pruned = 0;
}

prune-IsPruned_example :
    (t : PartialTranslOptColl ℕ ℕ) × (prune counts same_number same_number descend three_options
      ≡ some t)
    × IsPruned counts same_number three_options t
prune-IsPruned_example =
    prune-IsPruned counts same_number same_number descend descend-IsNthElement three_options
      (omega arith) (omega arith) (omega arith)

three_options-IsBounded : IsBounded three_options
three_options-IsBounded = record { positive = omega arith; fits = omega arith; bound = omega arith }

add_partial-IsBounded_example :
    (t : PartialTranslOptColl ℕ ℕ) × (add_partial counts same_number same_number descend 7
        three_options
      ≡ some t)
    × IsBounded t
add_partial-IsBounded_example =
    add_partial-IsBounded counts same_number same_number descend descend-IsNthElement 7
      three_options three_options-IsBounded

-- nth_element may leave the kept options in any order. Here the best is the last of them, so its
-- score becomes the bound, and an option better than the other kept one is refused.
abbrev best_last : ℕ → List ℕ → List ℕ
best_last n xs = 3 ∷ 9 ∷ 1 ∷ []

abbrev after_best_last : PartialTranslOptColl ℕ ℕ
after_best_last = record {
  list = 3 ∷ 9 ∷ [];
  best_score = 9;
  worst_score = 9;
  max_size = 2;
  total_pruned = 1;
}

pruned_best_last :
    prune counts same_number same_number best_last three_options ≡ some after_best_last
unfolding prune
pruned_best_last = refl

better_refused :
    add_partial counts same_number same_number best_last 5 after_best_last
    ≡ some (record after_best_last { total_pruned = 2 })
unfolding add_partial
better_refused = refl

no_limit :
    prune counts same_number same_number descend (record three_options { max_size = 0 }) ≡ none
unfolding prune descend
no_limit = refl

one_option :
    add_partial counts same_number same_number descend 7
      (new_coll counts same_number same_number descend 2)
    ≡ some (record three_options { list = 7 ∷ []; best_score = 7 })
unfolding add_partial new_coll
one_option = refl
