-- ===== src/FutureCost/Options/Bound.antt =====
-- How the table of future costs takes in the scores of the options.
use mathlib.Core.List.Memᴰ
use moses.Base.{
  ℕ, zero, suc, ◌+◌, ◌-◌, ◌*◌, ◌≤◌, ◌<◌, min, ◌≡◌, refl, sym, ap, ◌∙◌, ◌⊎◌, inl, inr, true, false,
  List, [], ◌∷◌, arith, ◌==◌, Bool-cases, length, get_or, set, length-set, get_or-set, if_inv,
  if_true, if_cases, for_always, for_reach,
}
use moses.FutureCost.Float.{Floats, IsOrdered}
use moses.FutureCost.Matrix.{SquareMatrix, get_score, set_score}
use moses.FutureCost.Options.{raise_score, raise_all, reset_scores, raise_options}
use mathlib.Core.Path.{subst}
use mathlib.Core.List.{Memᴰ}

-- A write changes the cell written or nothing.
pub get_or-set-cases {ℓ} :
    {A : Type ℓ} (xs : List A) (i j : ℕ) (v d : A)
    → (get_or (set xs i v) j d ≡ get_or xs j d) ⊎ ((i ≡ j) × (get_or (set xs i v) j d ≡ v))
get_or-set-cases [] i j v d = inl refl
get_or-set-cases (x ∷ xs) zero zero v d = inr (refl, refl)
get_or-set-cases (x ∷ xs) zero (suc j) v d = inl refl
get_or-set-cases (x ∷ xs) (suc i) zero v d = inl refl
get_or-set-cases (x ∷ xs) (suc i) (suc j) v d = elim (get_or-set-cases xs i j v d) [
  | inl same ↦ inl same
  | inr (e, w) ↦ inr (ap suc e, w)
]

pub cell_inside : (n s e : ℕ) → s < n → e < n → s * n + e < n * n
cell_inside n s e h k = grind arith

module _ {F : Type 0} (fl : Floats F) (ordered : IsOrdered fl) where
  -- The score in cell `k` is not smaller than `x`.
  abbrev pub NotBelow : F → ℕ → SquareMatrix fl → Type 0
  NotBelow x k m = fl.gt x (get_or m.cells k fl.zero_float) ≡ false

  -- A matrix of `size` rows.
  abbrev pub Shape : ℕ → SquareMatrix fl → Type 0
  Shape size m = (m.size ≡ size) × (length m.cells ≡ size * size)

  pub raise_score-keeps :
      (x : F) (k s e : ℕ) (score : F) (m : SquareMatrix fl)
      → NotBelow x k m
      → NotBelow x k (raise_score fl s e score m)
  unfolding raise_score get_score set_score
  raise_score-keeps x k s e score m h =
      if_cases (NotBelow x k) (fl.gt score (get_or m.cells (s * m.size + e) fl.zero_float)) _ m
        (λ more. elim (get_or-set-cases m.cells (s * m.size + e) k score fl.zero_float) [
          | inl same ↦ rw same h
          | inr (at_k, new) ↦ rw new (
              ordered.negtrans x (get_or m.cells k fl.zero_float) score h (
                ordered.asym score (get_or m.cells k fl.zero_float)
                  (subst (λ j. fl.gt score (get_or m.cells j fl.zero_float) ≡ true) at_k more)))
        ])
        (λ _. h)

  pub raise_score-Shape :
      (size s e : ℕ) (score : F) (m : SquareMatrix fl)
      → Shape size m
      → Shape size (raise_score fl s e score m)
  unfolding raise_score set_score
  raise_score-Shape size s e score m h =
      if_inv (Shape size) (fl.gt score (get_score fl m s e)) _ m
        (h.0, length-set m.cells (s * m.size + e) score ∙ h.1) h

  pub raise_score-reaches :
      (size s e : ℕ) (score : F) (m : SquareMatrix fl)
      → s < size
      → e < size
      → Shape size m
      → NotBelow score (s * size + e) (raise_score fl s e score m)
  unfolding raise_score get_score set_score
  raise_score-reaches size s e score m ls le (rows, len) = rw (← rows) (
      if_cases (NotBelow score (s * m.size + e))
        (fl.gt score (get_or m.cells (s * m.size + e) fl.zero_float)) _ m
        (λ more.
          let inside : s * m.size + e < length m.cells =
            rw (rows, len) (cell_inside size s e ls le) in
          let new =
            get_or-set m.cells (s * m.size + e) (s * m.size + e) score fl.zero_float inside in
          let cell : get_or (set m.cells (s * m.size + e) score) (s * m.size + e) fl.zero_float
              ≡ score =
            new ∙ if_true ((s * m.size + e) == (s * m.size + e)) score _ (ground arith) in
          rw cell (elim (Bool-cases (fl.gt score score)) [
            | inl above ↦ ordered.asym score score above
            | inr same ↦ same
          ]))
        (λ less. less))

  raise_all-keeps :
      (x : F) (k s e : ℕ) (scores : List F) (m : SquareMatrix fl)
      → NotBelow x k m
      → NotBelow x k (raise_all fl s e scores m)
  unfolding raise_all
  raise_all-keeps x k s e [] m h = h
  raise_all-keeps x k s e (score ∷ scores) m h =
      raise_all-keeps x k s e scores (raise_score fl s e score m)
        (raise_score-keeps x k s e score m h)

  raise_all-Shape :
      (size s e : ℕ) (scores : List F) (m : SquareMatrix fl)
      → Shape size m
      → Shape size (raise_all fl s e scores m)
  unfolding raise_all
  raise_all-Shape size s e [] m h = h
  raise_all-Shape size s e (score ∷ scores) m h =
      raise_all-Shape size s e scores (raise_score fl s e score m)
        (raise_score-Shape size s e score m h)

  raise_all-reaches :
      (size s e : ℕ) (x : F) (scores : List F) (m : SquareMatrix fl)
      → s < size
      → e < size
      → Memᴰ x scores
      → Shape size m
      → NotBelow x (s * size + e) (raise_all fl s e scores m)
  unfolding raise_all
  raise_all-reaches size s e x [] m ls le i h = absurd (Memᴰ.not-nil i)
  raise_all-reaches size s e x (score ∷ scores) m ls le i h = elim (Memᴰ.cases_cons i) [
    | inl here ↦ raise_all-keeps x (s * size + e) s e scores (raise_score fl s e score m) (
        subst (λ y. NotBelow y (s * size + e) (raise_score fl s e score m)) (sym here)
          (raise_score-reaches size s e score m ls le h))
    | inr later ↦
        raise_all-reaches size s e x scores (raise_score fl s e score m) ls le later
          (raise_score-Shape size s e score m h)
  ]

  reset_scores-Shape :
      (size : ℕ) (m : SquareMatrix fl) → Shape size m → Shape size (reset_scores fl size m)
  unfolding reset_scores set_score
  reset_scores-Shape size m h =
      for_always (Shape size) _ size 0 m
        (λ row t g.
          for_always (Shape size) _ (size - row) row t
            (λ col u f. (f.0, length-set u.cells (row * u.size + col) fl.neg_infinity ∙ f.1)) g)
        h

  module _ (size max_phrase_length : ℕ) (options : ℕ → ℕ → List F) where
    abbrev pub collected : SquareMatrix fl → SquareMatrix fl
    collected m = raise_options fl size max_phrase_length options (reset_scores fl size m)

    -- The options' scores are in the table before spans are joined.
    pub raise_options-reaches :
        (m : SquareMatrix fl) (s e : ℕ) (x : F)
        → Shape size m
        → s ≤ e
        → e < size
        → e < s + max_phrase_length
        → Memᴰ x (options s e)
        → NotBelow x (s * size + e) (collected m)
    unfolding raise_options
    raise_options-reaches m s e x h le lt short i =
        for_reach (Shape size) (NotBelow x (s * size + e)) _ size 0 s (reset_scores fl size m)
          (λ row t g.
            for_always (Shape size) _ (min (size - row) max_phrase_length) row t
              (λ col u f. raise_all-Shape size row col (options row col) u f) g)
          (λ row t g.
            for_always (NotBelow x (s * size + e)) _ (min (size - row) max_phrase_length) row t
              (λ col u f. raise_all-keeps x (s * size + e) row col (options row col) u f) g)
          (λ t g.
            for_reach (Shape size) (NotBelow x (s * size + e)) _ (min (size - s) max_phrase_length)
              s e t (λ col u f. raise_all-Shape size s col (options s col) u f)
              (λ col u f. raise_all-keeps x (s * size + e) s col (options s col) u f)
              (λ u f. raise_all-reaches size s e x (options s e) u (omega arith) lt i f) le
              (omega arith) g)
          (omega arith) (omega arith) (reset_scores-Shape size m h)

    pub raise_options-Shape : (m : SquareMatrix fl) → Shape size m → Shape size (collected m)
    unfolding raise_options
    raise_options-Shape m h =
        for_always (Shape size) _ size 0 (reset_scores fl size m)
          (λ row t g.
            for_always (Shape size) _ (min (size - row) max_phrase_length) row t
              (λ col u f. raise_all-Shape size row col (options row col) u f) g)
          (reset_scores-Shape size m h)
