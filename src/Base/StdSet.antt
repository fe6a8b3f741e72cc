-- ===== src/Base/StdSet.antt =====
-- std::set with a comparator: the elements in increasing order, none of them equivalent.
use Prim.Native.Nat.{suc, ◌+◌, ◌≤◌, Ordering}
use mathlib.Core.Path.{◌≡◌, refl, ap, ◌∙◌}
use mathlib.Core.Logic.{◌⊎◌, ◌≢◌, inl, inr}
use mathlib.Core.Option.{Option, none, some}
use mathlib.Core.List.{List, [], ◌∷◌, ◌++◌, Memᴰ}
use mathlib.Core.List.Memᴰ
use native.Mathlib.Omega.{arith}
use moses.Base.Lists.{length}

-- The ordering with its sides exchanged.
abbrev pub flip : Ordering → Ordering
flip Ordering.lt = Ordering.gt
flip Ordering.eq = Ordering.eq
flip Ordering.gt = Ordering.lt

-- What a comparator has to satisfy: the two sides agree, less is transitive, and equivalent
-- elements compare alike.
pub record IsComparator {ℓ} {A : Type ℓ} (cmp : A → A → Ordering) : Type ℓ where
  pub sides : (a b : A) → cmp b a ≡ flip (cmp a b)
  pub trans : (a b c : A) → cmp a b ≡ Ordering.lt → cmp b c ≡ Ordering.lt → cmp a c ≡ Ordering.lt
  pub alike : (a b c : A) → cmp a b ≡ Ordering.eq → cmp a c ≡ cmp b c

abbrev pub All {ℓ κ} : {A : Type ℓ} → (A → Type κ) → List A → Type κ
All P [] = Unit
All P (x ∷ xs) = P x × All P xs

pub All-mem {ℓ κ} : {A : Type ℓ} (P : A → Type κ) (xs : List A) (a : A) → All P xs → Memᴰ a xs → P a
All-mem P [] a h m = absurd (Memᴰ.not-nil m)
All-mem P (x ∷ xs) a h m = elim (Memᴰ.cases_cons m) [
  | inl here ↦ rw here h.0
  | inr later ↦ All-mem P xs a h.1 later
]

pub All-map {ℓ κ μ} :
    {A : Type ℓ} (P : A → Type κ) (Q : A → Type μ) (xs : List A)
    → ((a : A) → P a → Q a)
    → All P xs
    → All Q xs
All-map P Q [] f h = tt
All-map P Q (x ∷ xs) f h = (f x h.0, All-map P Q xs f h.1)

pub All-append {ℓ κ} :
    {A : Type ℓ} (P : A → Type κ) (xs ys : List A) → All P xs → All P ys → All P (xs ++ ys)
All-append P [] ys h k = k
All-append P (x ∷ xs) ys h k = (h.0, All-append P xs ys h.1 k)

module _ {ℓ} {A : Type ℓ} (cmp : A → A → Ordering) where
  -- The element that is equivalent to `a`.
  unfoldable pub find : A → List A → Option A
  find a [] = none
  find a (x ∷ xs) =
      let rest = find a xs in
      elim (cmp a x) [ Ordering.lt ↦ none | Ordering.eq ↦ some x | Ordering.gt ↦ rest ]

  -- The set after an insertion; it is unchanged if an equivalent element is there.
  unfoldable pub insert : A → List A → List A
  insert a [] = a ∷ []
  insert a (x ∷ xs) =
      let rest = insert a xs in
      elim (cmp a x) [ Ordering.lt ↦ a ∷ x ∷ xs | Ordering.eq ↦ x ∷ xs | Ordering.gt ↦ x ∷ rest ]

  -- erase(iterator) of the element that is equivalent to `a`.
  unfoldable pub erase : A → List A → List A
  erase a [] = []
  erase a (x ∷ xs) =
      let rest = erase a xs in
      elim (cmp a x) [ Ordering.lt ↦ x ∷ xs | Ordering.eq ↦ xs | Ordering.gt ↦ x ∷ rest ]

  abbrev pub Sorted : List A → Type ℓ
  Sorted [] = Unit
  Sorted (x ∷ xs) = All (λ y. cmp x y ≡ Ordering.lt) xs × Sorted xs

pub Ordering-cases : (o : Ordering) → (o ≡ Ordering.lt) ⊎ ((o ≡ Ordering.eq) ⊎ (o ≡ Ordering.gt))
Ordering-cases Ordering.lt = inl refl
Ordering-cases Ordering.eq = inr (inl refl)
Ordering-cases Ordering.gt = inr (inr refl)

module _ {ℓ} {A : Type ℓ} (cmp : A → A → Ordering) (a x : A) (xs : List A) where
  pub insert-lt : cmp a x ≡ Ordering.lt → insert cmp a (x ∷ xs) ≡ a ∷ x ∷ xs
  unfolding insert
  insert-lt h = rw (h, insert)

  pub insert-eq : cmp a x ≡ Ordering.eq → insert cmp a (x ∷ xs) ≡ x ∷ xs
  unfolding insert
  insert-eq h = rw (h, insert)

  pub insert-gt : cmp a x ≡ Ordering.gt → insert cmp a (x ∷ xs) ≡ x ∷ insert cmp a xs
  unfolding insert
  insert-gt h = rw (h, insert)

  erase-lt : cmp a x ≡ Ordering.lt → erase cmp a (x ∷ xs) ≡ x ∷ xs
  unfolding erase
  erase-lt h = rw (h, erase)

  erase-eq : cmp a x ≡ Ordering.eq → erase cmp a (x ∷ xs) ≡ xs
  unfolding erase
  erase-eq h = rw (h, erase)

  erase-gt : cmp a x ≡ Ordering.gt → erase cmp a (x ∷ xs) ≡ x ∷ erase cmp a xs
  unfolding erase
  erase-gt h = rw (h, erase)

  pub find-gt : cmp a x ≡ Ordering.gt → find cmp a (x ∷ xs) ≡ find cmp a xs
  unfolding find
  find-gt h = rw (h, find)

module _ {ℓ κ} {A : Type ℓ} (cmp : A → A → Ordering) (P : A → Type κ) where
  pub All-insert : (a : A) (xs : List A) → P a → All P xs → All P (insert cmp a xs)
  All-insert a [] p h = unfold insert in (p, tt)
  All-insert a (x ∷ xs) p h = elim (Ordering-cases (cmp a x)) [
    | inl lt ↦ rw (insert-lt cmp a x xs lt) (p, h)
    | inr (inl eq) ↦ rw (insert-eq cmp a x xs eq) h
    | inr (inr gt) ↦ rw (insert-gt cmp a x xs gt) (h.0, All-insert a xs p h.1)
  ]

  pub All-erase : (a : A) (xs : List A) → All P xs → All P (erase cmp a xs)
  All-erase a [] h = unfold erase in tt
  All-erase a (x ∷ xs) h = elim (Ordering-cases (cmp a x)) [
    | inl lt ↦ rw (erase-lt cmp a x xs lt) h
    | inr (inl eq) ↦ rw (erase-eq cmp a x xs eq) h.1
    | inr (inr gt) ↦ rw (erase-gt cmp a x xs gt) (h.0, All-erase a xs h.1)
  ]

  pub find-All : (a : A) (xs : List A) {x : A} → All P xs → find cmp a xs ≡ some x → P x
  unfolding find
  find-All a [] h e = cc
  find-All a (y ∷ xs) {x} h e = elim (Ordering-cases (cmp a y)) [
    | inl lt ↦ absurd (ground arith)
    | inr (inl eq) ↦ (let p : y ≡ x = ground arith in rw p at h.0)
    | inr (inr gt) ↦ find-All a xs {x = x} h.1 (ground arith)
  ]

module _ {ℓ} {A : Type ℓ} (cmp : A → A → Ordering) (order : IsComparator cmp) where
  -- An insertion keeps the set in strictly increasing order.
  pub insert-Sorted : (a : A) (xs : List A) → Sorted cmp xs → Sorted cmp (insert cmp a xs)
  insert-Sorted a [] s = unfold insert in (tt, tt)
  insert-Sorted a (x ∷ xs) s = elim (Ordering-cases (cmp a x)) [
    | inl lt ↦ rw (insert-lt cmp a x xs lt) (
      (
        lt,
        All-map (λ y. cmp x y ≡ Ordering.lt) (λ y. cmp a y ≡ Ordering.lt) xs
            (λ y h. order.trans a x y lt h) s.0,
      ),
      (s.0, s.1),
    )
    | inr (inl eq) ↦ rw (insert-eq cmp a x xs eq) s
    | inr (inr gt) ↦
        let below : cmp x a ≡ Ordering.lt = cc (order.sides a x, gt) in
        rw (insert-gt cmp a x xs gt)
          (All-insert cmp (λ y. cmp x y ≡ Ordering.lt) a xs below s.0, insert-Sorted a xs s.1)
  ]

  pub erase-Sorted : (a : A) (xs : List A) → Sorted cmp xs → Sorted cmp (erase cmp a xs)
  erase-Sorted a [] s = unfold erase in tt
  erase-Sorted a (x ∷ xs) s = elim (Ordering-cases (cmp a x)) [
    | inl lt ↦ rw (erase-lt cmp a x xs lt) s
    | inr (inl eq) ↦ rw (erase-eq cmp a x xs eq) s.1
    | inr (inr gt) ↦
        rw (erase-gt cmp a x xs gt)
          (All-erase cmp (λ y. cmp x y ≡ Ordering.lt) a xs s.0, erase-Sorted a xs s.1)
  ]

-- A set grows by one exactly when no equivalent element is there.
pub length-insert {ℓ} :
    {A : Type ℓ} (cmp : A → A → Ordering) (a : A) (xs : List A)
    → find cmp a xs ≡ none
    → length (insert cmp a xs) ≡ suc (length xs)
length-insert cmp a [] e = unfold insert in refl
length-insert cmp a (x ∷ xs) e = elim (Ordering-cases (cmp a x)) [
  | inl lt ↦ rw (insert-lt cmp a x xs lt) refl
  | inr (inl eq) ↦ absurd (unfold find in ground arith)
  | inr (inr gt) ↦
      rw (insert-gt cmp a x xs gt)
        (ap suc (length-insert cmp a xs (rw (← find-gt cmp a x xs gt) e)))
]

pub find-eq {ℓ} :
    {A : Type ℓ} (cmp : A → A → Ordering) (a : A) (xs : List A) {e : A}
    → find cmp a xs ≡ some e
    → cmp a e ≡ Ordering.eq
unfolding find
find-eq cmp a [] h = cc
find-eq cmp a (x ∷ xs) {e} h = elim (Ordering-cases (cmp a x)) [
  | inl lt ↦ absurd (ground arith)
  | inr (inl eq) ↦ ground arith
  | inr (inr gt) ↦ find-eq cmp a xs (ground arith)
]

module _ {ℓ} {A : Type ℓ} (cmp : A → A → Ordering) where
  pub mem-insert : (a y : A) (xs : List A) → Memᴰ y xs → Memᴰ y (insert cmp a xs)
  mem-insert a y [] m = absurd (Memᴰ.not-nil m)
  mem-insert a y (x ∷ xs) m = elim (Ordering-cases (cmp a x)) [
    | inl lt ↦ rw (insert-lt cmp a x xs lt) (Memᴰ.tail m)
    | inr (inl eq) ↦ rw (insert-eq cmp a x xs eq) m
    | inr (inr gt) ↦ rw (insert-gt cmp a x xs gt) (elim (Memᴰ.cases_cons m) [
      | inl here ↦ Memᴰ.head here
      | inr later ↦ Memᴰ.tail (mem-insert a y xs later)
    ])
  ]

  -- An element with no equivalent in the set is in the set after its insertion.
  pub mem-insert_self :
      (a : A) (xs : List A) → All (λ y. cmp a y ≢ Ordering.eq) xs → Memᴰ a (insert cmp a xs)
  mem-insert_self a [] h = unfold insert in Memᴰ.head refl
  mem-insert_self a (x ∷ xs) h = elim (Ordering-cases (cmp a x)) [
    | inl lt ↦ rw (insert-lt cmp a x xs lt) (Memᴰ.head refl)
    | inr (inl eq) ↦ absurd (h.0 eq)
    | inr (inr gt) ↦ rw (insert-gt cmp a x xs gt) (Memᴰ.tail (mem-insert_self a xs h.1))
  ]

  pub length-insert-le : (a : A) (xs : List A) → length (insert cmp a xs) ≤ length xs + 1
  unfolding insert
  length-insert-le a [] = omega arith
  length-insert-le a (x ∷ xs) = ground (arith, length-insert-le a xs)

  pub length-erase :
      (a : A) (xs : List A) {e : A}
      → find cmp a xs ≡ some e
      → suc (length (erase cmp a xs)) ≡ length xs
  unfolding find erase
  length-erase a [] h = cc
  length-erase a (x ∷ xs) {e} h = ground (arith, length-erase a xs {e = e})

  pub length-erase-le : (a : A) (xs : List A) → length (erase cmp a xs) ≤ length xs
  unfolding erase
  length-erase-le a [] = omega arith
  length-erase-le a (x ∷ xs) = ground (arith, length-erase-le a xs)

module _ {ℓ} {A : Type ℓ} (cmp : A → A → Ordering) (order : IsComparator cmp) where
  find-below : (a : A) (xs : List A) → All (λ y. cmp a y ≡ Ordering.lt) xs → find cmp a xs ≡ none
  unfolding find
  find-below a [] h = refl
  find-below a (x ∷ xs) h = rw (h.0, find)

  -- Once an element is erased, nothing equivalent to it is left.
  pub find-erase :
      (a e : A) (xs : List A)
      → Sorted cmp xs
      → cmp a e ≡ Ordering.eq
      → find cmp a (erase cmp e xs) ≡ none
  find-erase a e [] s h = unfold erase find in refl
  find-erase a e (x ∷ xs) s h = elim (Ordering-cases (cmp e x)) [
    | inl lt ↦
        let below : cmp a x ≡ Ordering.lt = order.alike a e x h ∙ lt in
        rw (erase-lt cmp e x xs lt) (unfold find in rw (below, find))
    | inr (inl eq) ↦ rw (erase-eq cmp e x xs eq) (
        find-below a xs (
          All-map (λ y. cmp x y ≡ Ordering.lt) (λ y. cmp a y ≡ Ordering.lt) xs
            (λ y l. order.alike a e y h ∙ order.alike e x y eq ∙ l) s.0))
    | inr (inr gt) ↦
        let above : cmp a x ≡ Ordering.gt = order.alike a e x h ∙ gt in
        rw (erase-gt cmp e x xs gt)
          (find-gt cmp a x (erase cmp e xs) above ∙ find-erase a e xs s.1 h)
  ]

pub comparator_refl {ℓ} :
    {A : Type ℓ} (cmp : A → A → Ordering) → IsComparator cmp → (a : A) → cmp a a ≡ Ordering.eq
comparator_refl cmp order a = self (cmp a a) (order.sides a a)
  where
    self : (o : Ordering) → o ≡ flip o → o ≡ Ordering.eq
    self Ordering.lt h = cc
    self Ordering.eq h = refl
    self Ordering.gt h = cc
