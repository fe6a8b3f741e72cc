-- ===== src/FutureCost/Options/Attained.antt =====
-- The table of future costs is exact: a cell holds the best score of a way to cover its span.

use moses.Base.{
  ℕ, ◌+◌, ◌-◌, ◌*◌, ◌≤◌, ◌<◌, min, ◌≡◌, refl, sym, ap, ◌∙◌, ◌⊎◌, inl, inr, true, false, List, [],
  ◌∷◌, arith, leb, ◌==◌, Bool-cases, length, get_or, length-set, get_or-set, for_range, for_inv,
  if_true, if_cases, for_always, for_reach,
}
use mathlib.Core.List.{Memᴰ}
use mathlib.Core.Path.{subst}
use moses.FutureCost.Float.{Floats, IsOrdered}
use moses.FutureCost.Matrix.{SquareMatrix, get_score, set_score}
use moses.FutureCost.Options.{
  raise_score, raise_all, raise_options, reset_scores, join_spans, join_all, calc_future_scores,
}
use moses.FutureCost.Options.Bound.{Shape, get_or-set-cases, cell_inside}
use moses.FutureCost.Options.Best.{IsMonotone, Cover, single, joined, calc_future_scores-Cover}

-- Different spans have different cells.
same_row : (n s t d e : ℕ) → d < n → e < n → s * n + d ≡ t * n + e → s ≤ t
same_row n s t d e hd he h = elim (Bool-cases (leb s t)) [
  | inl le ↦ ground (arith, le)
  | inr gt ↦ let more : t + 1 ≤ s = ground (arith, gt) in absurd (rows n s t d e hd he h more)
]
  where
    rows : (n s t d e : ℕ) → d < n → e < n → s * n + d ≡ t * n + e → t + 1 ≤ s → ⊥
    rows n s t d e hd he h more = grind arith

same_cell : (n s t d e : ℕ) → d < n → e < n → s * n + d ≡ t * n + e → (s ≡ t) × (d ≡ e)
same_cell n s t d e hd he h =
    let a = same_row n s t d e hd he h in
    let b = same_row n t s e d he hd (sym h) in
    let same : s ≡ t = omega (arith, a, b) in (same, omega (arith, h, ap (λ (k : ℕ). k * n) same))

-- Adding minus infinity gives nothing that is greater than a score.
pub record IsAbsorbing {F : Type 0} (fl : Floats F) : Type 0 where
  pub add_left : (b c : F) → fl.gt (fl.add fl.neg_infinity b) c ≡ false
  pub add_right : (a c : F) → fl.gt (fl.add a fl.neg_infinity) c ≡ false

module _ {F : Type 0} (fl : Floats F) (ordered : IsOrdered fl) (absorbing : IsAbsorbing fl)
    (size max_phrase_length : ℕ) (options : ℕ → ℕ → List F) where
  -- A score that a span's cell may hold.
  abbrev pub Possible : ℕ → ℕ → F → Type 0
  Possible s e x = (x ≡ fl.neg_infinity) ⊎ Cover fl max_phrase_length options s e x

  abbrev pub at : SquareMatrix fl → ℕ → ℕ → F
  at m s e = get_or m.cells (s * size + e) fl.zero_float

  record IsPossible (m : SquareMatrix fl) : Type 0 where
    shape : Shape fl ordered size m
    cells : (s e : ℕ) → s ≤ e → e < size → Possible s e (at m s e)

  -- A write of a possible score.
  set_score-IsPossible :
      (s e : ℕ) (x : F) (m : SquareMatrix fl)
      → e < size
      → Possible s e x
      → IsPossible m
      → IsPossible (set_score fl m s e x)
  unfolding set_score
  set_score-IsPossible s e x m he p d = record {
    shape = (d.shape.0, length-set m.cells (s * m.size + e) x ∙ d.shape.1);
    cells = λ t q le lt.
        elim (get_or-set-cases m.cells (s * m.size + e) (t * size + q) x fl.zero_float) [
          | inl same ↦ subst (Possible t q) (sym same) (d.cells t q le lt)
          | inr (there, new) ↦
              let index : s * size + e ≡ t * size + q =
                ap (λ (k : ℕ). s * k + e) (sym d.shape.0) ∙ there in
              let (first, second) = same_cell size s t e q he lt index in
              subst (Possible t q) (sym new) (
                subst (λ (k : ℕ). Possible k q x) first
                  (subst (λ (k : ℕ). Possible s k x) second p))
        ];
  }

  raise_score-IsPossible :
      (s e : ℕ) (x : F) (m : SquareMatrix fl)
      → e < size
      → (fl.gt x (get_score fl m s e) ≡ true → Possible s e x)
      → IsPossible m
      → IsPossible (raise_score fl s e x m)
  unfolding raise_score
  raise_score-IsPossible s e x m he p d =
      if_cases IsPossible (fl.gt x (get_score fl m s e)) (set_score fl m s e x) m
        (λ more. set_score-IsPossible s e x m he (p more) d) (λ less. d)

  raise_all-IsPossible :
      (s e : ℕ) (xs : List F) (m : SquareMatrix fl)
      → e < size
      → ((x : F) → Memᴰ x xs → Possible s e x)
      → IsPossible m
      → IsPossible (raise_all fl s e xs m)
  unfolding raise_all
  raise_all-IsPossible s e [] m he p d = d
  raise_all-IsPossible s e (x ∷ xs) m he p d =
      raise_all-IsPossible s e xs (raise_score fl s e x m) he (λ y i. p y (Memᴰ.tail i))
        (raise_score-IsPossible s e x m he (λ more. p x (Memᴰ.head refl)) d)

  for_within :
      (P : SquareMatrix fl → Type 0) (f : ℕ → SquareMatrix fl → SquareMatrix fl) (k first : ℕ)
      (m : SquareMatrix fl)
      → ((i : ℕ) (t : SquareMatrix fl) → first ≤ i → i < first + k → P t → P (f i t))
      → P m
      → P (for_range k first f m)
  for_within P f k first m step p =
      for_inv (λ i t. P t) f k first (first + k) m (λ i t l u q. step i t l u q) refl p

  raise_options-IsPossible :
      (m : SquareMatrix fl)
      → IsPossible m
      → IsPossible (raise_options fl size max_phrase_length options m)
  unfolding raise_options
  raise_options-IsPossible m d =
      for_within IsPossible _ size 0 m
        (λ s t l u k.
          for_within IsPossible _ (min (size - s) max_phrase_length) s t
            (λ e v l' u' g.
              raise_all-IsPossible s e (options s e) v (omega (arith, u, u'))
                (λ x i. inr (single s e x l' (omega (arith, u')) i)) g)
            k)
        d

  join_here :
      (s j e : ℕ) (m : SquareMatrix fl)
      → s ≤ j
      → j < e
      → e < size
      → IsPossible m
      → IsPossible (raise_score fl s e (fl.add (get_score fl m s j) (get_score fl m (j + 1) e)) m)
  unfolding get_score
  join_here s j e m l u he d =
      let rows : m.size ≡ size = d.shape.0 in
      let left : Possible s j (get_score fl m s j) =
        subst (λ (k : ℕ). Possible s j (get_or m.cells (s * k + j) fl.zero_float)) (sym rows)
          (d.cells s j l (omega (arith, u, he))) in
      let right : Possible (j + 1) e (get_score fl m (j + 1) e) =
        subst (λ (k : ℕ). Possible (j + 1) e (get_or m.cells ((j + 1) * k + e) fl.zero_float))
          (sym rows) (d.cells (j + 1) e (omega (arith, u)) he) in
      raise_score-IsPossible s e (fl.add (get_score fl m s j) (get_score fl m (j + 1) e)) m he
        (λ more. elim left [
          | inl low ↦ absurd (
              cc (
                more,
                ap (λ (x : F). fl.gt (fl.add x (get_score fl m (j + 1) e)) (get_score fl m s e))
                    low,
                absorbing.add_left (get_score fl m (j + 1) e) (get_score fl m s e),
              ))
          | inr a ↦ elim right [
            | inl low ↦ absurd (
                cc (
                  more,
                  ap (λ (x : F). fl.gt (fl.add (get_score fl m s j) x) (get_score fl m s e)) low,
                  absorbing.add_right (get_score fl m s j) (get_score fl m s e),
                ))
            | inr b ↦ inr (joined s j e refl a b)
          ]
        ])
        d

  join_all-IsPossible : (m : SquareMatrix fl) → IsPossible m → IsPossible (join_all fl size m)
  unfolding join_all join_spans
  join_all-IsPossible m d =
      for_within IsPossible _ (size - 1) 1 m
        (λ c t l u k.
          for_within IsPossible _ (size - c) 0 t
            (λ shift v l' u' g.
              for_within IsPossible _ (c + shift - shift) shift v
                (λ j w l'' u'' h.
                  join_here shift j (c + shift) w l'' (omega (arith, u'')) (omega (arith, u')) h)
                g)
            k)
        d

  -- The write of -inf to one cell.
  abbrev cleared : ℕ → ℕ → SquareMatrix fl → SquareMatrix fl
  cleared s e m = set_score fl m s e fl.neg_infinity

  cleared-Shape :
      (s e : ℕ) (m : SquareMatrix fl)
      → Shape fl ordered size m
      → Shape fl ordered size (cleared s e m)
  unfolding set_score
  cleared-Shape s e m h = (h.0, length-set m.cells (s * m.size + e) fl.neg_infinity ∙ h.1)

  -- The cell of the span holds -inf.
  abbrev IsLow : ℕ → ℕ → SquareMatrix fl → Type 0
  IsLow s e m = at m s e ≡ fl.neg_infinity

  cleared-IsLow : (s e p q : ℕ) (m : SquareMatrix fl) → IsLow s e m → IsLow s e (cleared p q m)
  unfolding set_score
  cleared-IsLow s e p q m h =
      elim (get_or-set-cases m.cells (p * m.size + q) (s * size + e) fl.neg_infinity
        fl.zero_float) [ inl same ↦ same ∙ h | inr (there, new) ↦ new ]

  cleared_here :
      (s e : ℕ) (m : SquareMatrix fl)
      → s < size
      → e < size
      → Shape fl ordered size m
      → IsLow s e (cleared s e m)
  unfolding set_score
  cleared_here s e m hs he (rows, len) =
      let index : s * m.size + e ≡ s * size + e = ap (λ (k : ℕ). s * k + e) rows in
      let inside : s * m.size + e < length m.cells = rw (rows, len) (cell_inside size s e hs he) in
      get_or-set m.cells (s * m.size + e) (s * size + e) fl.neg_infinity fl.zero_float inside
      ∙ if_true ((s * m.size + e) == (s * size + e)) fl.neg_infinity _ (ground (arith, index))

  reset_scores-IsPossible :
      (m : SquareMatrix fl) → Shape fl ordered size m → IsPossible (reset_scores fl size m)
  unfolding reset_scores
  reset_scores-IsPossible m h = record {
    shape =
        for_always (Shape fl ordered size) _ size 0 m
          (λ s t g.
            for_always (Shape fl ordered size) _ (size - s) s t (λ e u f. cleared-Shape s e u f) g)
          h;
    cells = λ s e le lt. inl (
        for_reach (Shape fl ordered size) (IsLow s e) _ size 0 s m
          (λ p t g.
            for_always (Shape fl ordered size) _ (size - p) p t (λ q u f. cleared-Shape p q u f) g)
          (λ p t g. for_always (IsLow s e) _ (size - p) p t (λ q u f. cleared-IsLow s e p q u f) g)
          (λ t g.
            for_reach (Shape fl ordered size) (IsLow s e) _ (size - s) s e t
              (λ q u f. cleared-Shape s q u f) (λ q u f. cleared-IsLow s e s q u f)
              (λ u f. cleared_here s e u (omega (arith, le, lt)) lt f) le (omega (arith, le, lt)) g)
          (omega arith) (omega (arith, le, lt)) h);
  }

  calc_future_scores-IsPossible :
      (m : SquareMatrix fl)
      → Shape fl ordered size m
      → IsPossible (calc_future_scores fl size max_phrase_length options m)
  unfolding calc_future_scores
  calc_future_scores-IsPossible m h =
      join_all-IsPossible (raise_options fl size max_phrase_length options (reset_scores fl size m))
        (raise_options-IsPossible (reset_scores fl size m) (reset_scores-IsPossible m h))

  -- A span's estimate: minus infinity, or what some way to cover the span by options of its parts
  -- adds up to; no such way adds up to more.
  pub record IsBest (s e : ℕ) (v : F) : Type 0 where
    pub attained : Possible s e v
    pub above : (x : F) → Cover fl max_phrase_length options s e x → fl.gt x v ≡ false

  -- For scores without NaN whose addition is monotone and gives nothing greater than a score from
  -- minus infinity, and a matrix of `size` rows: after CalcFutureScore the cell of any span of the
  -- sentence holds minus infinity or what some way to cover the span by options of its parts adds
  -- up to, and it is not smaller than what any such way adds up to.
  pub calc_future_scores-IsBest :
      IsMonotone fl
      → (m : SquareMatrix fl) (s e : ℕ) → m.size ≡ size
      → length m.cells ≡ size * size
      → e < size
      → s ≤ e
      → IsBest s e (at (calc_future_scores fl size max_phrase_length options m) s e)
  calc_future_scores-IsBest monotone m s e rows len lt le = record {
    attained = (calc_future_scores-IsPossible m (rows, len)).cells s e le lt;
    above = λ x w.
        calc_future_scores-Cover fl ordered monotone size max_phrase_length options m s e x rows len
          lt w;
  }
