-- ===== src/Decoder/Stack/Sorting.antt =====
-- The sorted list that pruning and n-best extraction go through.
use moses.Base.{
  ℕ, Ordering, ◌≡◌, ap, ◌∙◌, ◌≢◌, ◌⊎◌, inl, inr, true, false, List, [], ◌∷◌, Bool-cases,
}
use moses.Base.StdSet.{All, All-map, Sorted, IsComparator, flip}
use mathlib.Core.List.{Memᴰ}
use mathlib.Core.List.Memᴰ
use moses.FutureCost.Float.{Floats, IsOrdered}
use moses.Decoder.Hypothesis.{Hypothesis}
use moses.Decoder.Stack.{place, get_sorted_list, order}

-- The relation holds between every element and every later one.
abbrev pub Pairs {ℓ κ} : {A : Type ℓ} → (A → A → Type κ) → List A → Type κ
Pairs R [] = Unit
Pairs R (x ∷ xs) = All (R x) xs × Pairs R xs

module _ {F S : Type 0} (fl : Floats F) (num_ffs : ℕ) (cmp : S → S → Ordering) where
  -- The score of `a` is not below that of `b`.
  abbrev pub NotBelow : Hypothesis F S → Hypothesis F S → Type 0
  NotBelow a b = fl.gt b.total_score a.total_score ≡ false

  -- `a` and `b` are not recombinable.
  abbrev pub Differs : Hypothesis F S → Hypothesis F S → Type 0
  Differs a b = order fl num_ffs cmp a b ≢ Ordering.eq

  module _ (h x : Hypothesis F S) (xs : List (Hypothesis F S)) where
    place-gt :
        fl.gt x.total_score h.total_score ≡ true
        → place fl num_ffs cmp h (x ∷ xs) ≡ x ∷ place fl num_ffs cmp h xs
    unfolding place
    place-gt e = rw e

    place-le :
        fl.gt x.total_score h.total_score ≡ false → place fl num_ffs cmp h (x ∷ xs) ≡ h ∷ x ∷ xs
    unfolding place
    place-le e = rw e

  module _ {κ} (P : Hypothesis F S → Type κ) where
    All-place :
        (h : Hypothesis F S) (xs : List (Hypothesis F S))
        → P h
        → All P xs
        → All P (place fl num_ffs cmp h xs)
    All-place h [] p a = unfold place in (p, tt)
    All-place h (x ∷ xs) p a = elim (Bool-cases (fl.gt x.total_score h.total_score)) [
      | inl gt ↦ rw (place-gt h x xs gt) (a.0, All-place h xs p a.1)
      | inr le ↦ rw (place-le h x xs le) (p, a)
    ]

    -- Sorting keeps what holds of every hypothesis.
    pub All-get_sorted_list :
        (hs : List (Hypothesis F S)) → All P hs → All P (get_sorted_list fl num_ffs cmp hs)
    unfolding get_sorted_list
    All-get_sorted_list [] a = tt
    All-get_sorted_list (h ∷ hs) a =
        All-place h (get_sorted_list fl num_ffs cmp hs) a.0 (All-get_sorted_list hs a.1)

  mem-place :
      (h y : Hypothesis F S) (xs : List (Hypothesis F S))
      → (y ≡ h) ⊎ Memᴰ y xs
      → Memᴰ y (place fl num_ffs cmp h xs)
  mem-place h y [] (inl e) = unfold place in Memᴰ.head e
  mem-place h y [] (inr m) = absurd (Memᴰ.not-nil m)
  mem-place h y (x ∷ xs) m = elim (Bool-cases (fl.gt x.total_score h.total_score)) [
    | inr le ↦ rw (place-le h x xs le) (elim m [ inl e ↦ Memᴰ.head e | inr t ↦ Memᴰ.tail t ])
    | inl gt ↦ rw (place-gt h x xs gt) (elim m [
      | inl e ↦ Memᴰ.tail (mem-place h y xs (inl e))
      | inr t ↦ elim (Memᴰ.cases_cons t) [
        | inl here ↦ Memᴰ.head here
        | inr later ↦ Memᴰ.tail (mem-place h y xs (inr later))
      ]
    ])
  ]

  pub mem-get_sorted_list :
      (y : Hypothesis F S) (hs : List (Hypothesis F S))
      → Memᴰ y hs
      → Memᴰ y (get_sorted_list fl num_ffs cmp hs)
  unfolding get_sorted_list
  mem-get_sorted_list y [] m = m
  mem-get_sorted_list y (h ∷ hs) m =
      mem-place h y (get_sorted_list fl num_ffs cmp hs) (elim (Memᴰ.cases_cons m) [
        | inl here ↦ inl here
        | inr later ↦ inr (mem-get_sorted_list y hs later)
      ])

  module _ (lawful : IsOrdered fl) where
    place-Pairs :
        (h : Hypothesis F S) (xs : List (Hypothesis F S))
        → Pairs NotBelow xs
        → Pairs NotBelow (place fl num_ffs cmp h xs)
    place-Pairs h [] p = unfold place in (tt, tt)
    place-Pairs h (x ∷ xs) p = elim (Bool-cases (fl.gt x.total_score h.total_score)) [
      | inl gt ↦ rw (place-gt h x xs gt) (
        All-place (NotBelow x) h xs (lawful.asym x.total_score h.total_score gt) p.0,
        place-Pairs h xs p.1,
      )
      | inr le ↦ rw (place-le h x xs le) (
        (
          le,
          All-map (NotBelow x) (NotBelow h) xs
              (λ y q. lawful.negtrans y.total_score x.total_score h.total_score q le) p.0,
        ),
        p,
      )
    ]

    -- The sorted list is in descending order of scores.
    pub get_sorted_list-Pairs :
        (hs : List (Hypothesis F S)) → Pairs NotBelow (get_sorted_list fl num_ffs cmp hs)
    unfolding get_sorted_list
    get_sorted_list-Pairs [] = tt
    get_sorted_list-Pairs (h ∷ hs) =
        place-Pairs h (get_sorted_list fl num_ffs cmp hs) (get_sorted_list-Pairs hs)

  module _ (lawful : IsComparator (order fl num_ffs cmp)) where
    pub Differs-sym : (a b : Hypothesis F S) → Differs a b → Differs b a
    Differs-sym a b d e = d (lawful.sides b a ∙ ap flip e)

    place-Differs :
        (h : Hypothesis F S) (xs : List (Hypothesis F S))
        → All (Differs h) xs
        → Pairs Differs xs
        → Pairs Differs (place fl num_ffs cmp h xs)
    place-Differs h [] a p = unfold place in (tt, tt)
    place-Differs h (x ∷ xs) a p = elim (Bool-cases (fl.gt x.total_score h.total_score)) [
      | inl gt ↦
          rw (place-gt h x xs gt)
            (All-place (Differs x) h xs (Differs-sym h x a.0) p.0, place-Differs h xs a.1 p.1)
      | inr le ↦ rw (place-le h x xs le) (a, p)
    ]

    -- Hypotheses of a stack are not recombinable with one another, and neither are the sorted ones.
    pub get_sorted_list-Differs :
        (hs : List (Hypothesis F S))
        → Sorted (order fl num_ffs cmp) hs
        → Pairs Differs (get_sorted_list fl num_ffs cmp hs)
    unfolding get_sorted_list
    get_sorted_list-Differs [] s = tt
    get_sorted_list-Differs (h ∷ hs) s =
        place-Differs h (get_sorted_list fl num_ffs cmp hs)
          (All-get_sorted_list (Differs h) hs (
            All-map (λ y. order fl num_ffs cmp h y ≡ Ordering.lt) (Differs h) hs (λ y l e. cc) s.0))
          (get_sorted_list-Differs hs s.1)
