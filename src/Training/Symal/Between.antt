-- ===== src/Training/Symal/Between.antt =====
-- The grown alignment lies between the intersection and the union.
use mathlib.Core.List.Memᴰ
use moses.Base.{
  ℕ, zero, suc, ◌+◌, ◌-◌, ◌≤◌, ◌<◌, ◌≡◌, refl, sym, ap, inl, inr, Bool, true, ◌&&◌, some, List, [],
  ◌∷◌, arith, ltb, ◌==◌, Bool-cases, get_or, if_inv, if_cases, for_reach,
}
use moses.Base.StdSet.{All, All-map, All-mem, All-append}
use mathlib.Core.List.{Memᴰ}
use mathlib.Core.Path.{subst}
use moses.Training.Symal.{Point, intersect, union_alignment, src_to_tgt, tgt_to_src}
use moses.Training.Symal.Points.{mem-union_alignment, mem_src, mem_tgt, from_print}
use moses.Training.Symal.Growth.{InUnion, Shape, start_points-Shape, grow-returns, final_step-Shape}
use moses.Training.Symal.Grow.{
  Growth, is_member, fill_in, nothing, start_points, grow, final_step, row_rounds, print_points,
  grow_alignment,
}

All-of {ℓ κ} : {A : Type ℓ} (P : A → Type κ) (xs : List A) → ((a : A) → Memᴰ a xs → P a) → All P xs
All-of P [] f = tt
All-of P (x ∷ xs) f = (f x (Memᴰ.head refl), All-of P xs (λ a m. f a (Memᴰ.tail m)))

is_member-mem : (i j : ℕ) (ps : List Point) → is_member (i, j) ps ≡ true → Memᴰ (i, j) ps
unfolding is_member
is_member-mem i j [] h = absurd (ground (arith, h))
is_member-mem i j ((k, l) ∷ ps) h = elim (Bool-cases (i == k && j == l)) [
  | inl here ↦
      let first : i ≡ k = ground (arith, here) in
      let second : j ≡ l = ground (arith, here) in Memᴰ.head (λ t. (first t, second t))
  | inr later ↦ Memᴰ.tail (is_member-mem i j ps (ground (arith, h, later)))
]

mem-is_member : (i j : ℕ) (ps : List Point) → Memᴰ (i, j) ps → is_member (i, j) ps ≡ true
unfolding is_member
mem-is_member i j [] h = absurd (Memᴰ.not-nil h)
mem-is_member i j ((k, l) ∷ ps) h = elim (Memᴰ.cases_cons h) [
  | inl here ↦
      let first : i ≡ k = ap (λ (p : Point). p.0) here in
      let second : j ≡ l = ap (λ (p : Point). p.1) here in ground (arith, first, second)
  | inr later ↦ ground (arith, mem-is_member i j ps later)
]

-- A point as it is printed.
abbrev shown : Point → Point
shown p = (p.1 - 1, p.0 - 1)

module _ (m : ℕ) (a : List ℕ) (n : ℕ) (b : List ℕ) where
  mem-row_rounds :
      (ps : List Point) (i r s j : ℕ)
      → s ≤ j
      → j < s + r
      → is_member (i, j) ps ≡ true
      → Memᴰ (j - 1, i - 1) (row_rounds m a n b ps i r s)
  unfolding row_rounds
  mem-row_rounds ps i zero s j l u h = absurd (omega arith)
  mem-row_rounds ps i (suc r) s j l u h = elim (Bool-cases (j == s)) [
    | inl here ↦ (let same : s ≡ j = ground arith in rw (same, h) (Memᴰ.head refl))
    | inr other ↦
        if_inv (Memᴰ (j - 1, i - 1)) (is_member (i, s) ps) _ _
          (Memᴰ.tail (mem-row_rounds ps i r (s + 1) j (ground arith) (omega arith) h))
          (mem-row_rounds ps i r (s + 1) j (ground arith) (omega arith) h)
  ]

  mem-print_points :
      (ps : List Point) (r s i j : ℕ)
      → s ≤ i
      → i < s + r
      → 1 ≤ j
      → j ≤ m
      → is_member (i, j) ps ≡ true
      → Memᴰ (j - 1, i - 1) (print_points m a n b ps r s)
  unfolding print_points
  mem-print_points ps zero s i j l u lj uj h = absurd (omega arith)
  mem-print_points ps (suc r) s i j l u lj uj h = elim (Bool-cases (i == s)) [
    | inl here ↦
        let same : s ≡ i = ground arith in
        Memᴰ.append_left _ (
          subst (λ k. Memᴰ (j - 1, i - 1) (row_rounds m a n b ps k m 1)) (sym same)
            (mem-row_rounds ps i m 1 j lj (omega arith) h))
    | inr other ↦
        Memᴰ.append_right (row_rounds m a n b ps s m 1)
          (mem-print_points ps r (s + 1) i j (ground arith) (omega arith) lj uj h)
  ]

  module _ (Q : Point → Type 0) (ps : List Point) (q : All (λ p. Q (shown p)) ps) where
    row_rounds-All : (i r s : ℕ) → All Q (row_rounds m a n b ps i r s)
    unfolding row_rounds
    row_rounds-All i zero s = tt
    row_rounds-All i (suc r) s =
        if_cases (All Q) (is_member (i, s) ps) _ _
          (λ h. (
            All-mem (λ p. Q (shown p)) ps (i, s) q (is_member-mem i s ps h),
            row_rounds-All i r (s + 1),
          ))
          (λ h. row_rounds-All i r (s + 1))

    print_points-All : (r s : ℕ) → All Q (print_points m a n b ps r s)
    unfolding print_points
    print_points-All zero s = tt
    print_points-All (suc r) s =
        All-append Q (row_rounds m a n b ps s m 1) _ (row_rounds-All s m 1)
          (print_points-All r (s + 1))

  module _ (inside_a : (j : ℕ) → get_or a j 0 ≤ n) (inside_b : (i : ℕ) → get_or b i 0 ≤ m) where
    InUnion-union_alignment :
        (p : Point) → InUnion m a n b p → Memᴰ (shown p) (union_alignment m a n b)
    InUnion-union_alignment (i, j) ((li, ui), (lj, uj), side) =
        (mem-union_alignment m a n b inside_a inside_b (shown (i, j))).1 (elim side [
          | inl e ↦ inr (
              subst (λ k. Memᴰ (k - 1, i - 1) (tgt_to_src m a n b)) e
                (mem_tgt m a n b inside_a inside_b i li ui (omega (arith, e, lj))))
          | inr e ↦ inl (
              subst (λ k. Memᴰ (j - 1, k - 1) (src_to_tgt m a n b)) e
                (mem_src m a n b inside_a inside_b j lj uj (omega (arith, e, li))))
        ])

    -- A position whose point both directions have.
    abbrev Both : ℕ → Type 0
    Both j = (1 ≤ j) × (j ≤ m) × (0 < get_or a j 0) × (get_or b (get_or a j 0) 0 ≡ j)

    start-mem : (j : ℕ) → Both j → Memᴰ (get_or a j 0, j) (start_points m a n b).points
    unfolding start_points fill_in
    start-mem j (l, u, p, e) =
        for_reach (λ (t : Growth). Unit {0}) (λ t. Memᴰ (get_or a j 0, j) t.points) _ m 1 j
          (nothing m a n b) (λ i t k. tt)
          (λ i t k. if_inv (λ (s : Growth). Memᴰ (get_or a j 0, j) s.points) _ _ t (Memᴰ.tail k) k)
          (λ t k.
            let yes_both : (ltb 0 (get_or a j 0) && get_or b (get_or a j 0) 0 == j) ≡ true =
              ground (arith, p, e) in
            rw yes_both (Memᴰ.head refl))
          l (omega arith) tt

    begun : Shape m a n b (start_points m a n b).points (start_points m a n b)
    begun =
        let s = start_points-Shape m a n b inside_a in
        record {
          ea_length = s.ea_length;
          fa_length = s.fa_length;
          union = s.union;
          kept =
              All-of (λ p. Memᴰ p (start_points m a n b).points) (start_points m a n b).points
                (λ p k. k);
        }

    -- The points that are printed in the end.
    abbrev printed : Growth → List Point
    printed st = print_points m a n b st.points n 1

    intersect-printed :
        (st : Growth)
        → Shape m a n b (start_points m a n b).points st
        → (q : Point) → Memᴰ q (intersect m a n b)
        → Memᴰ q (printed st)
    unfolding intersect
    intersect-printed st s q h =
        let (j, l, u, t, e) =
          from_print (λ j. ltb 0 (get_or a j 0) && get_or b (get_or a j 0) 0 == j)
            (λ j. (j - 1, get_or a j 0 - 1)) m q h in
        let i = get_or a j 0 in
        let here = start-mem j (l, omega (arith, u), ground (arith, t), ground (arith, t)) in
        let there : Memᴰ (i, j) st.points =
          All-mem (λ p. Memᴰ p st.points) (start_points m a n b).points (i, j) s.kept here in
        subst (λ p. Memᴰ p (printed st)) (sym e)
          (mem-print_points st.points n 1 i j (ground (arith, t)) (omega (arith, inside_a j)) l
            (omega (arith, u)) (mem-is_member i j st.points there))

    grow_alignment-some :
        (diagonal final both_uncovered : Bool) (grown : Growth)
        → grow m a n b (n + m + 3) diagonal (start_points m a n b) ≡ some grown
        → grow_alignment m a n b diagonal final both_uncovered
          ≡ some (printed (final_step m a n b final both_uncovered grown))
    unfolding grow_alignment
    grow_alignment-some diagonal final both_uncovered grown e = rw (e, grow_alignment)

    -- For directions whose entries are positions of the other sentence or 0: whatever the options,
    -- the grown alignment is computed with the fuel given, it has every point of the intersection,
    -- and all its points are in the union.
    pub grow_alignment-between :
        (diagonal final both_uncovered : Bool)
        → (out : List Point) × (grow_alignment m a n b diagonal final both_uncovered ≡ some out)
          × All (λ q. Memᴰ q out) (intersect m a n b)
          × All (λ q. Memᴰ q (union_alignment m a n b)) out
    grow_alignment-between diagonal final both_uncovered =
        let base = (start_points m a n b).points in
        let (grown, e, s) =
          grow-returns m a n b base (n + m + 3) diagonal (start_points m a n b) begun
            (omega arith) in
        let st = final_step m a n b final both_uncovered grown in
        let t = final_step-Shape m a n b base final both_uncovered grown s in
        (
          printed st,
          grow_alignment-some diagonal final both_uncovered grown e,
          All-of (λ q. Memᴰ q (printed st)) (intersect m a n b) (λ q h. intersect-printed st t q h),
          print_points-All (λ q. Memᴰ q (union_alignment m a n b)) st.points
              (All-map (InUnion m a n b) (λ p. Memᴰ (shown p) (union_alignment m a n b)) st.points
                InUnion-union_alignment t.union)
              n 1,
        )
