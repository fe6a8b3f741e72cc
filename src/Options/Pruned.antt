-- ===== src/Options/Pruned.antt =====
-- What pruning keeps, and how large a collection gets.
use mathlib.Core.List.{Memᴰ}
use mathlib.Core.List.Memᴰ
use moses.Base.{
  ℕ, zero, suc, ◌+◌, ◌-◌, ◌*◌, ◌%◌, ◌≤◌, ◌<◌, ◌≡◌, refl, ap, ◌∙◌, ◌⊎◌, inl, inr, false, some, List,
  [], ◌∷◌, arith, ltb, leb, Bool-cases, length, length-append, sub64, if_inv, if_true, if_false,
}
use moses.FutureCost.Float.{Floats}
use moses.Options.{
  PartialTranslOptColl, count_pruned, first, rest_from, at, add_no_prune, cut, prune, add_partial,
}

module _ {ℓ} {A : Type ℓ} where
  length-first : (n : ℕ) (xs : List A) → n ≤ length xs → length (first n xs) ≡ n
  length-first zero xs h = refl
  length-first (suc n) [] h = absurd (omega (arith, h))
  length-first (suc n) (x ∷ xs) h = ap suc (length-first n xs (omega (arith, h)))

  at-some : (xs : List A) (i : ℕ) → i < length xs → (a : A) × (at xs i ≡ some a)
  at-some [] i h = absurd (omega (arith, h))
  at-some (x ∷ xs) zero h = (x, refl)
  at-some (x ∷ xs) (suc i) h = at-some xs i (omega (arith, h))

  mem-first_or_rest :
      (n : ℕ) (xs : List A) (a : A) → Memᴰ a xs → Memᴰ a (first n xs) ⊎ Memᴰ a (rest_from n xs)
  mem-first_or_rest zero xs a m = inr m
  mem-first_or_rest (suc n) [] a m = absurd (Memᴰ.not-nil m)
  mem-first_or_rest (suc n) (x ∷ xs) a m = elim (Memᴰ.cases_cons m) [
    | inl here ↦ inl (Memᴰ.head here)
    | inr later ↦ elim (mem-first_or_rest n xs a later) [
      | inl k ↦ inl (Memᴰ.tail k)
      | inr r ↦ inr r
    ]
  ]

  mem_of_first : (n : ℕ) (xs : List A) (a : A) → Memᴰ a (first n xs) → Memᴰ a xs
  mem_of_first zero xs a m = absurd (Memᴰ.not-nil m)
  mem_of_first (suc n) [] a m = absurd (Memᴰ.not-nil m)
  mem_of_first (suc n) (x ∷ xs) a m = elim (Memᴰ.cases_cons m) [
    | inl here ↦ Memᴰ.head here
    | inr later ↦ Memᴰ.tail (mem_of_first n xs a later)
  ]

module _ {F O : Type 0} where
  -- The limit is not 0, twice the limit fits size_t, and there are no more options than that.
  pub record IsBounded (c : PartialTranslOptColl F O) : Type 0 where
    pub positive : 0 < c.max_size
    pub fits : 2 * c.max_size < 18446744073709551616
    pub bound : length c.list ≤ 2 * c.max_size

  -- At most one option more, under the same limit.
  record IsLonger (c t : PartialTranslOptColl F O) : Type 0 where
    limit : t.max_size ≡ c.max_size
    bound : length t.list ≤ length c.list + 1

module _ {F O : Type 0} (fl : Floats F) (future_score : O → F) where
  -- What std::nth_element promises for a position inside the list: it reorders the list, and
  -- nothing before the position is worse than anything from there on.
  pub record IsNthElement (nth_element : ℕ → List O → List O) : Type 0 where
    pub length_kept : (n : ℕ) (xs : List O) → length (nth_element n xs) ≡ length xs
    pub mem_to : (n : ℕ) (xs : List O) (o : O) → Memᴰ o xs → Memᴰ o (nth_element n xs)
    pub mem_from : (n : ℕ) (xs : List O) (o : O) → Memᴰ o (nth_element n xs) → Memᴰ o xs
    pub apart :
        (n : ℕ) (xs : List O) (o k : O)
        → n < length xs
        → Memᴰ o (rest_from n (nth_element n xs))
        → Memᴰ k (first n (nth_element n xs))
        → fl.gt (future_score o) (future_score k) ≡ false

  -- `t` is what pruning `s` may leave.
  pub record IsPruned (s t : PartialTranslOptColl F O) : Type 0 where
    pub size : length t.list ≡ s.max_size
    pub limit : t.max_size ≡ s.max_size
    pub counted : t.total_pruned ≡ count_pruned s.total_pruned (length s.list - s.max_size)
    pub from : (o : O) → Memᴰ o t.list → Memᴰ o s.list
    pub best :
        (o k : O)
        → Memᴰ o s.list
        → Memᴰ k t.list
        → Memᴰ o t.list ⊎ (fl.gt (future_score o) (future_score k) ≡ false)

module _ {F O : Type 0} (fl : Floats F) (calc_score : O → O) (future_score : O → F)
    (nth_element : ℕ → List O → List O) (law : IsNthElement fl future_score nth_element) where
  abbrev Coll : Type 0
  Coll = PartialTranslOptColl F O

  cut-some :
      (c : Coll) (xs : List O) (o : O)
      → at xs (sub64 c.max_size 1) ≡ some o
      → cut fl calc_score future_score nth_element c xs
        ≡ some (record c {
          list = first c.max_size xs;
          worst_score = future_score o;
          total_pruned = count_pruned c.total_pruned (length xs - c.max_size);
        })
  unfolding cut
  cut-some c xs o e = rw (cut, e) refl

  -- A collection that is too large, with a limit that is not 0 and fits size_t, is pruned to the
  -- limit: every option that is left was in the list, every option that was in the list is left or
  -- is no better than any that is, and the counter grows by the number of options deleted.
  pub prune-IsPruned :
      (c : Coll)
      → 0 < c.max_size
      → c.max_size < 18446744073709551616
      → c.max_size < length c.list
      → (t : Coll) × (prune fl calc_score future_score nth_element c ≡ some t)
        × IsPruned fl future_score c t
  unfolding prune
  prune-IsPruned c positive fits large =
      let xs = nth_element c.max_size c.list in
      let len = law.length_kept c.max_size c.list in
      let limit = at-some xs (sub64 c.max_size 1) (omega (arith, len, positive, fits, large)) in
      (
        record c {
          list = first c.max_size xs;
          worst_score = future_score limit.0;
          total_pruned = count_pruned c.total_pruned (length xs - c.max_size);
        },
        if_false (leb (length c.list) c.max_size) (some c) _ (ground (arith, large))
            ∙ cut-some c xs limit.0 limit.1,
        record {
          size = length-first c.max_size xs (omega (arith, len, large));
          limit = refl;
          counted = ap (λ n. count_pruned c.total_pruned (n - c.max_size)) len;
          from = λ o m. law.mem_from c.max_size c.list o (mem_of_first c.max_size xs o m);
          best = λ o k m kept.
              elim (mem-first_or_rest c.max_size xs o (law.mem_to c.max_size c.list o m)) [
                | inl stays ↦ inl stays
                | inr goes ↦ inr (law.apart c.max_size c.list o k large goes kept)
              ];
        },
      )

  add_no_prune-IsLonger :
      (o : O) (c : Coll) → IsLonger c (add_no_prune fl calc_score future_score nth_element o c)
  unfolding add_no_prune
  add_no_prune-IsLonger o c =
      if_inv (IsLonger c) (fl.ge (future_score (calc_score o)) c.worst_score) _ _
        (record { limit = refl; bound = omega (arith, length-append c.list (calc_score o ∷ [])) })
        (record { limit = refl; bound = omega arith })

  -- On a collection whose limit is not 0, whose doubled limit fits size_t, and which holds no more
  -- than twice the limit: Add does not read out of bounds, and the three hold of the collection
  -- afterwards.
  pub add_partial-IsBounded :
      (o : O) (c : Coll)
      → IsBounded c
      → (t : Coll) × (add_partial fl calc_score future_score nth_element o c ≡ some t) × IsBounded t
  unfolding add_partial
  add_partial-IsBounded o c s =
      let c' = add_no_prune fl calc_score future_score nth_element o c in
      let longer = add_no_prune-IsLonger o c in
      let same = longer.limit in
      let fit : 2 * c'.max_size % 18446744073709551616 ≡ 2 * c'.max_size =
        omega (arith, same, s.fits) in
      elim (Bool-cases (ltb (2 * c'.max_size % 18446744073709551616) (length c'.list))) [
        | inl large ↦
            let over : 2 * c'.max_size < length c'.list = ground (arith, large, fit) in
            let (t, e, p) =
              prune-IsPruned c' (omega (arith, same, s.positive)) (omega (arith, same, s.fits))
                (omega (arith, over)) in
            (
              t,
              if_true _ _ (some c') large ∙ e,
              record {
                positive = omega (arith, p.limit, same, s.positive);
                fits = omega (arith, p.limit, same, s.fits);
                bound = omega (arith, p.limit, p.size);
              },
            )
        | inr small ↦ (
          c',
          if_false _ (prune fl calc_score future_score nth_element c') _ small,
          record {
            positive = omega (arith, same, s.positive);
            fits = omega (arith, same, s.fits);
            bound = ground (arith, small, fit);
          },
        )
      ]
