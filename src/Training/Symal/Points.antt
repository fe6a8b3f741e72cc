-- ===== src/Training/Symal/Points.antt =====
-- Which points symal prints.
use mathlib.Core.List.Memᴰ
use moses.Base.{
  ℕ, zero, suc, ◌+◌, ◌-◌, ◌≤◌, ◌<◌, ◌≡◌, refl, sym, ap, ◌∙◌, ◌↔◌, ◌⊎◌, inl, inr, Bool, true, not,
  ◌&&◌, List, arith, ltb, ◌==◌, Bool-cases, get_or, if_cases,
}
use moses.Base.StdSet.{All, All-mem}
use moses.Training.Symal.{Point, print_rounds, src_to_tgt, tgt_to_src, intersect, union_alignment}
use mathlib.Core.List.{Memᴰ}
use mathlib.Core.Path.{subst}

-- A position that passes the test and gives the point.
abbrev pub Printed : (ℕ → Bool) → (ℕ → Point) → ℕ → ℕ → Point → Type 0
Printed test point first last q =
    (k : ℕ) × (first ≤ k) × (k < last) × (test k ≡ true) × (q ≡ point k)

print_rounds-All :
    (test : ℕ → Bool) (point : ℕ → Point) (n s first last : ℕ)
    → first ≤ s
    → s + n ≤ last
    → All (Printed test point first last) (print_rounds test point n s)
unfolding print_rounds
print_rounds-All test point zero s first last l u = tt
print_rounds-All test point (suc n) s first last l u =
    let rest = print_rounds-All test point n (s + 1) first last (omega arith) (omega arith) in
    if_cases (All (Printed test point first last)) (test s) _ _
      (λ t. ((s, l, omega arith, t, refl), rest)) (λ f. rest)

mem-print_rounds :
    (test : ℕ → Bool) (point : ℕ → Point) (n first k : ℕ)
    → first ≤ k
    → k < first + n
    → test k ≡ true
    → Memᴰ (point k) (print_rounds test point n first)
unfolding print_rounds
mem-print_rounds test point zero first k l u t = absurd (omega arith)
mem-print_rounds test point (suc n) first k l u t = elim (Bool-cases (k == first)) [
  | inl here ↦ (let same : first ≡ k = ground arith in rw (same, t) (Memᴰ.head refl))
  | inr later ↦
      let rest = mem-print_rounds test point n (first + 1) k (ground arith) (omega arith) t in
      if_cases (Memᴰ (point k)) (test first) _ _ (λ f. Memᴰ.tail rest) (λ f. rest)
]

pub from_print :
    (test : ℕ → Bool) (point : ℕ → Point) (n : ℕ) (q : Point)
    → Memᴰ q (print_rounds test point n 1)
    → Printed test point 1 (1 + n) q
from_print test point n q m =
    All-mem (Printed test point 1 (1 + n)) (print_rounds test point n 1) q
      (print_rounds-All test point n 1 1 (1 + n) (omega arith) (omega arith)) m

module _ (m : ℕ) (a : List ℕ) (n : ℕ) (b : List ℕ) (inside_a : (j : ℕ) → get_or a j 0 ≤ n)
    (inside_b : (i : ℕ) → get_or b i 0 ≤ m) where
  pub mem_src :
      (j : ℕ)
      → 1 ≤ j
      → j ≤ m
      → 0 < get_or a j 0
      → Memᴰ (j - 1, get_or a j 0 - 1) (src_to_tgt m a n b)
  unfolding src_to_tgt
  mem_src j l u h =
      mem-print_rounds (λ j. ltb 0 (get_or a j 0)) (λ j. (j - 1, get_or a j 0 - 1)) m 1 j l
        (omega arith) (ground arith)

  pub mem_tgt :
      (i : ℕ)
      → 1 ≤ i
      → i ≤ n
      → 0 < get_or b i 0
      → Memᴰ (get_or b i 0 - 1, i - 1) (tgt_to_src m a n b)
  unfolding tgt_to_src
  mem_tgt i l u h =
      mem-print_rounds (λ i. ltb 0 (get_or b i 0)) (λ i. (get_or b i 0 - 1, i - 1)) n 1 i l
        (omega arith) (ground arith)

  intersect-sides :
      (q : Point)
      → Memᴰ q (intersect m a n b)
      → Memᴰ q (src_to_tgt m a n b) × Memᴰ q (tgt_to_src m a n b)
  unfolding intersect
  intersect-sides q h =
      let (j, l, u, t, e) =
        from_print (λ j. ltb 0 (get_or a j 0) && get_or b (get_or a j 0) 0 == j)
          (λ j. (j - 1, get_or a j 0 - 1)) m q h in
      let back : get_or b (get_or a j 0) 0 ≡ j = ground arith in
      let same : (get_or b (get_or a j 0) 0 - 1, get_or a j 0 - 1) ≡ q = rw (back, e) refl in
      (
        subst (λ p. Memᴰ p (src_to_tgt m a n b)) (sym e) (mem_src j l (omega arith) (ground arith)),
        subst (λ p. Memᴰ p (tgt_to_src m a n b)) same
            (mem_tgt (get_or a j 0) (ground arith) (inside_a j) (omega arith)),
      )

  sides-intersect :
      (q : Point)
      → Memᴰ q (src_to_tgt m a n b)
      → Memᴰ q (tgt_to_src m a n b)
      → Memᴰ q (intersect m a n b)
  unfolding intersect src_to_tgt tgt_to_src
  sides-intersect q h k =
      let (j, l, u, t, e) =
        from_print (λ j. ltb 0 (get_or a j 0)) (λ j. (j - 1, get_or a j 0 - 1)) m q h in
      let (i, l', u', t', e') =
        from_print (λ i. ltb 0 (get_or b i 0)) (λ i. (get_or b i 0 - 1, i - 1)) n q k in
      let first : j - 1 ≡ get_or b i 0 - 1 = ap (λ p. p.0) (sym e ∙ e') in
      let second : get_or a j 0 - 1 ≡ i - 1 = ap (λ p. p.1) (sym e ∙ e') in
      let there : get_or a j 0 ≡ i = ground arith in
      let back : get_or b i 0 ≡ j = ground arith in
      subst (λ p. Memᴰ p (intersect m a n b)) (sym e)
        (mem-print_rounds (λ j. ltb 0 (get_or a j 0) && get_or b (get_or a j 0) 0 == j)
          (λ j. (j - 1, get_or a j 0 - 1)) m 1 j l u (rw there (ground arith)))

  -- For directions whose entries are positions of the other sentence or 0, the intersection has
  -- exactly the points that both directions have.
  pub mem-intersect :
      (q : Point)
      → Memᴰ q (intersect m a n b) ↔ (Memᴰ q (src_to_tgt m a n b) × Memᴰ q (tgt_to_src m a n b))
  mem-intersect q = (λ h. intersect-sides q h, λ h. sides-intersect q h.0 h.1)

  sides-union_alignment :
      (q : Point) → Memᴰ q (tgt_to_src m a n b) → Memᴰ q (union_alignment m a n b)
  unfolding union_alignment tgt_to_src src_to_tgt
  sides-union_alignment q k =
      let (i, l, u, t, e) =
        from_print (λ i. ltb 0 (get_or b i 0)) (λ i. (get_or b i 0 - 1, i - 1)) n q k in
      elim (Bool-cases (get_or a (get_or b i 0) 0 == i)) [
        | inl both ↦
            let there : get_or a (get_or b i 0) 0 ≡ i = ground arith in
            let same : (get_or b i 0 - 1, get_or a (get_or b i 0) 0 - 1) ≡ q = rw (there, e) refl in
            Memᴰ.append_left _ (
              subst (λ p. Memᴰ p (src_to_tgt m a n b)) same
                (mem_src (get_or b i 0) (ground arith) (inside_b i) (omega arith)))
        | inr only ↦ Memᴰ.append_right (src_to_tgt m a n b) (
            subst
              (λ p. Memᴰ p (
                print_rounds (λ i. ltb 0 (get_or b i 0) && not (get_or a (get_or b i 0) 0 == i))
                  (λ i. (get_or b i 0 - 1, i - 1)) n 1))
              (sym e)
              (mem-print_rounds (λ i. ltb 0 (get_or b i 0) && not (get_or a (get_or b i 0) 0 == i))
                (λ i. (get_or b i 0 - 1, i - 1)) n 1 i l u (ground arith)))
      ]

  union_alignment-sides :
      (q : Point)
      → Memᴰ q (union_alignment m a n b)
      → Memᴰ q (src_to_tgt m a n b) ⊎ Memᴰ q (tgt_to_src m a n b)
  unfolding union_alignment src_to_tgt
  union_alignment-sides q h = elim (Memᴰ.append_cases (src_to_tgt m a n b) h) [
    | inl first ↦ inl first
    | inr second ↦
        let (i, l, u, t, e) =
          from_print (λ i. ltb 0 (get_or b i 0) && not (get_or a (get_or b i 0) 0 == i))
            (λ i. (get_or b i 0 - 1, i - 1)) n q second in
        inr (
          subst (λ p. Memᴰ p (tgt_to_src m a n b)) (sym e)
            (mem_tgt i l (omega arith) (ground arith)))
  ]

  -- For directions whose entries are positions of the other sentence or 0, the union has exactly
  -- the points that one of the directions has.
  pub mem-union_alignment :
      (q : Point)
      → Memᴰ q (union_alignment m a n b)
        ↔ (Memᴰ q (src_to_tgt m a n b) ⊎ Memᴰ q (tgt_to_src m a n b))
  unfolding union_alignment src_to_tgt
  mem-union_alignment q = (
    λ h. union_alignment-sides q h,
    λ h. elim h [
      | inl first ↦ Memᴰ.append_left _ first
      | inr second ↦ sides-union_alignment q second
    ],
  )
