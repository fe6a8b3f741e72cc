-- ===== src/Training/Symal/Growth.antt =====
-- What inserting points keeps: they are points of the union, none is lost, and each insertion in a
-- scan covers a word.

use moses.Base.{
  ℕ, zero, suc, ◌+◌, ◌≤◌, ◌<◌, ◌≡◌, refl, ◌∙◌, ◌⊎◌, inl, inr, Bool, true, false, not, ◌&&◌, ◌||◌,
  some, List, [], ◌∷◌, arith, ltb, leb, ◌==◌, Bool-cases, length, get_or, set, length-set,
  length-replicate, for_range, for_inv, if_inv, if_cases, for_always,
}
use moses.Base.StdSet.{All, All-map}
use mathlib.Core.List.{Memᴰ}
use moses.Training.Symal.{Point}
use moses.Training.Symal.Grow.{
  Growth, Offset, move, neighbors, is_member, insert_point, fill_in, nothing, start_points, covered,
  try_point, try_neighbors, visit, scan, grow, is_inverse, is_direct, finish_point, finish,
  final_step,
}

-- The number of covered positions.
pub count_true : List Bool → ℕ
count_true [] = 0
count_true (true ∷ xs) = suc (count_true xs)
count_true (false ∷ xs) = count_true xs

pub count_true-le : (xs : List Bool) → count_true xs ≤ length xs
unfolding count_true
count_true-le [] = omega arith
count_true-le (true ∷ xs) = omega (arith, count_true-le xs)
count_true-le (false ∷ xs) = omega (arith, count_true-le xs)

count_true-set_le : (xs : List Bool) (i : ℕ) → count_true xs ≤ count_true (set xs i true)
unfolding count_true
count_true-set_le [] i = omega arith
count_true-set_le (true ∷ xs) zero = omega arith
count_true-set_le (false ∷ xs) zero = omega arith
count_true-set_le (true ∷ xs) (suc i) = omega (arith, count_true-set_le xs i)
count_true-set_le (false ∷ xs) (suc i) = omega (arith, count_true-set_le xs i)

count_true-set_lt :
    (xs : List Bool) (i : ℕ)
    → i < length xs
    → get_or xs i false ≡ false
    → count_true xs < count_true (set xs i true)
unfolding count_true
count_true-set_lt [] i h e = absurd (omega arith)
count_true-set_lt (true ∷ xs) zero h e = ground arith
count_true-set_lt (false ∷ xs) zero h e = omega arith
count_true-set_lt (true ∷ xs) (suc i) h e = omega (arith, count_true-set_lt xs i (omega arith) e)
count_true-set_lt (false ∷ xs) (suc i) h e = omega (arith, count_true-set_lt xs i (omega arith) e)

-- The covered words of both sides.
abbrev pub weight : Growth → ℕ
weight st = count_true st.ea + count_true st.fa

module _ (m : ℕ) (a : List ℕ) (n : ℕ) (b : List ℕ) where
  -- A point of one of the directions.
  abbrev pub InUnion : Point → Type 0
  InUnion p =
      ((1 ≤ p.0) × (p.0 ≤ n))
      × ((1 ≤ p.1) × (p.1 ≤ m))
      × ((get_or b p.0 0 ≡ p.1) ⊎ (get_or a p.1 0 ≡ p.0))

  -- `base` is still there, and all points are of the union.
  pub record Shape (base : List Point) (st : Growth) : Type 0 where
    pub ea_length : length st.ea ≡ n + 1
    pub fa_length : length st.fa ≡ m + 1
    pub union : All InUnion st.points
    pub kept : All (λ p. Memᴰ p st.points) base

  pub insert_point-Shape :
      (base : List Point) (i j : ℕ) (st : Growth)
      → InUnion (i, j)
      → Shape base st
      → Shape base (insert_point m a n b i j st)
  insert_point-Shape base i j st u s = record {
    ea_length = length-set st.ea i true ∙ s.ea_length;
    fa_length = length-set st.fa j true ∙ s.fa_length;
    union = (u, s.union);
    kept = All-map (λ p. Memᴰ p st.points) _ base (λ p q. Memᴰ.tail q) s.kept;
  }

  pub insert_point-weight :
      (base : List Point) (i j : ℕ) (st : Growth)
      → InUnion (i, j)
      → Shape base st
      → covered m a n b st i j ≡ false
      → weight st < weight (insert_point m a n b i j st)
  insert_point-weight base i j st (p, q, side) s free = elim (Bool-cases (get_or st.ea i false)) [
    | inl done ↦
        let open_word : get_or st.fa j false ≡ false = ground arith in
        omega (
          arith,
          count_true-set_le st.ea i,
          count_true-set_lt st.fa j (omega (arith, s.fa_length, q.1)) open_word,
        )
    | inr open_word ↦ omega (
      arith,
      count_true-set_lt st.ea i (omega (arith, s.ea_length, p.1)) open_word,
      count_true-set_le st.fa j,
    )
  ]

  -- The state in a scan that began with `c` covered words.
  pub record InScan (base : List Point) (c : ℕ) (st : Growth) : Type 0 where
    pub shape : Shape base st
    pub more : c ≤ weight st
    pub grew : st.added ≡ true → c < weight st

  try_point-union :
      (i j : ℕ) (st : Growth)
      → ((ltb 0 i && leb i n && ltb 0 j && leb j m)
          && (get_or b i 0 == j || get_or a j 0 == i)
          && not (covered m a n b st i j))
        ≡ true
      → InUnion (i, j) × (covered m a n b st i j ≡ false)
  try_point-union i j st h = (
    (
      (ground (arith, h), ground (arith, h)),
      (ground (arith, h), ground (arith, h)),
      elim (Bool-cases (get_or b i 0 == j)) [
        | inl e ↦ inl (ground (arith, e))
        | inr e ↦ inr (ground (arith, e, h))
      ],
    ),
    ground (arith, h),
  )

  try_point-InScan :
      (base : List Point) (c i j : ℕ) (st : Growth)
      → InScan base c st
      → InScan base c (try_point m a n b i j st)
  unfolding try_point
  try_point-InScan base c i j st s =
      if_cases (InScan base c) _ (insert_point m a n b i j st) st
        (λ h.
          let (u, free) = try_point-union i j st h in
          let w = insert_point-weight base i j st u s.shape free in
          record {
            shape = insert_point-Shape base i j st u s.shape;
            more = omega (arith, s.more, w);
            grew = λ e. omega (arith, s.more, w);
          })
        (λ h. s)

  try_neighbors-InScan :
      (base : List Point) (c : ℕ) (os : List (Offset × Offset)) (i j : ℕ) (st : Growth)
      → InScan base c st
      → InScan base c (try_neighbors m a n b os i j st)
  unfolding try_neighbors
  try_neighbors-InScan base c [] i j st s = s
  try_neighbors-InScan base c ((o, p) ∷ os) i j st s =
      try_neighbors-InScan base c os i j (try_point m a n b (move o i) (move p j) st)
        (try_point-InScan base c (move o i) (move p j) st s)

  visit-InScan :
      (base : List Point) (c : ℕ) (diagonal : Bool) (i j : ℕ) (st : Growth)
      → InScan base c st
      → InScan base c (visit m a n b diagonal i j st)
  unfolding visit
  visit-InScan base c diagonal i j st s =
      if_inv (InScan base c) (is_member (i, j) st.points) _ st
        (try_neighbors-InScan base c (neighbors diagonal) i j st s) s

  scan-InScan :
      (base : List Point) (c : ℕ) (diagonal : Bool) (st : Growth)
      → InScan base c st
      → InScan base c (scan m a n b diagonal st)
  unfolding scan
  scan-InScan base c diagonal st s =
      for_always (InScan base c) _ n 1 st
        (λ i t k.
          for_always (InScan base c) _ m 1 t (λ j u l. visit-InScan base c diagonal i j u l) k)
        s

  -- Enough fuel for the scans that remain.
  pub grow-returns :
      (base : List Point) (fuel : ℕ) (diagonal : Bool) (st : Growth)
      → Shape base st
      → n + m + 3 ≤ fuel + weight st
      → (out : Growth) × (grow m a n b fuel diagonal st ≡ some out) × Shape base out
  unfolding grow
  grow-returns base zero diagonal st s h =
      absurd (omega (arith, h, s.ea_length, s.fa_length, count_true-le st.ea, count_true-le st.fa))
  grow-returns base (suc fuel) diagonal st s h =
      let clean : Growth = record st { added = false } in
      let next = scan m a n b diagonal clean in
      let began : InScan base (weight st) clean = record {
        shape = record {
          ea_length = s.ea_length;
          fa_length = s.fa_length;
          union = s.union;
          kept = s.kept;
        };
        more = omega arith;
        grew = λ e. absurd (ground (arith, e));
      } in
      let after = scan-InScan base (weight st) diagonal clean began in
      elim (Bool-cases next.added) [
        | inl again ↦
            let (out, e, k) =
              grow-returns base fuel diagonal next after.shape
                (omega (arith, h, after.grew again)) in
            (out, rw again e, k)
        | inr done ↦ (next, rw done refl, after.shape)
      ]

  -- A body that keeps `P` in the rounds of the loop.
  for_within :
      (P : Growth → Type 0) (f : ℕ → Growth → Growth) (k : ℕ) (st : Growth)
      → ((i : ℕ) (t : Growth) → 1 ≤ i → i ≤ k → P t → P (f i t))
      → P st
      → P (for_range k 1 f st)
  for_within P f k st step p =
      for_inv (λ i t. P t) f k 1 (1 + k) st (λ i t l u q. step i t l (omega (arith, u)) q) refl p

  -- A kind of union points.
  abbrev OfUnion : (Growth → ℕ → ℕ → Bool) → Type 0
  OfUnion kind =
      (st : Growth) (i j : ℕ) → kind st i j ≡ true → (get_or b i 0 ≡ j) ⊎ (get_or a j 0 ≡ i)

  finish-Shape :
      (base : List Point) (kind : Growth → ℕ → ℕ → Bool) (both : Bool) (st : Growth)
      → OfUnion kind
      → Shape base st
      → Shape base (finish m a n b kind both st)
  unfolding finish finish_point
  finish-Shape base kind both st of s =
      for_within (Shape base) _ n st
        (λ i t li ui k.
          for_within (Shape base) _ m t
            (λ j u lj uj l.
              if_cases (Shape base) _ (insert_point m a n b i j u) u
                (λ h.
                  insert_point-Shape base i j u ((li, ui), (lj, uj), of u i j (ground (arith, h)))
                    l)
                (λ h. l))
            k)
        s

  pub final_step-Shape :
      (base : List Point) (final both : Bool) (st : Growth)
      → Shape base st
      → Shape base (final_step m a n b final both st)
  unfolding final_step
  final_step-Shape base final both st s =
      if_inv (Shape base) final _ st
        (finish-Shape base (λ t i j. is_direct m a n b t i j) both _
          (λ t i j h. inr (ground (arith, h)))
          (finish-Shape base (λ t i j. is_inverse m a n b t i j) both st
            (λ t i j h. inl (ground (arith, h))) s))
        s

  pub start_points-Shape : ((j : ℕ) → get_or a j 0 ≤ n) → Shape [] (start_points m a n b)
  unfolding start_points fill_in
  start_points-Shape inside =
      for_within (Shape []) _ m (nothing m a n b)
        (λ j t l u s.
          if_cases (Shape []) _ (insert_point m a n b (get_or a j 0) j t) t
            (λ h.
              insert_point-Shape [] (get_or a j 0) j t
                ((ground (arith, h), inside j), (l, u), inr refl) s)
            (λ h. s))
        (record {
          ea_length = length-replicate (n + 1) false;
          fa_length = length-replicate (m + 1) false;
          union = tt;
          kept = tt;
        })
