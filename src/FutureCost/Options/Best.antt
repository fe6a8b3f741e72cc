-- ===== src/FutureCost/Options/Best.antt =====
-- The table of future costs is admissible: no way to put options together scores better than it.
use moses.Base.{
  ℕ, ◌+◌, ◌-◌, ◌*◌, ◌≤◌, ◌<◌, ◌≡◌, refl, sym, inl, inr, false, List, arith, ltb, Bool-cases, length,
  get_or, for_range, for_inv, for_always, for_reach,
}
use mathlib.Core.List.{Memᴰ}
use mathlib.Core.Path.{subst}
use moses.FutureCost.Float.{Floats, IsOrdered}
use moses.FutureCost.Matrix.{SquareMatrix, get_score}
use moses.FutureCost.Options.{raise_score, join_spans, join_all, calc_future_scores}
use moses.FutureCost.Options.Bound.{
  NotBelow, Shape, raise_score-keeps, raise_score-Shape, raise_score-reaches, collected,
  raise_options-reaches, raise_options-Shape,
}

-- Adding no smaller scores gives no smaller score.
pub record IsMonotone {F : Type 0} (fl : Floats F) : Type 0 where
  pub add_mono :
      (a a' b b' : F)
      → fl.gt a a' ≡ false
      → fl.gt b b' ≡ false
      → fl.gt (fl.add a b) (fl.add a' b') ≡ false

-- A way to cover the words from `s` to `e` by options, and the score that it adds up to: one option
-- of the span, or two ways for two parts of it.
pub data Cover {F : Type 0} (fl : Floats F) (max_phrase_length : ℕ) (options : ℕ → ℕ → List F)
    : ℕ → ℕ → F → Type 0 where
  single :
      (s e : ℕ) (x : F)
      → s ≤ e
      → e < s + max_phrase_length
      → Memᴰ x (options s e)
      → Cover fl max_phrase_length options s e x
  joined :
      (s j e : ℕ) {k : ℕ} {a b : F}
      → k ≡ j + 1
      → Cover fl max_phrase_length options s j a
      → Cover fl max_phrase_length options k e b
      → Cover fl max_phrase_length options s e (fl.add a b)

module _ {F : Type 0} (fl : Floats F) (ordered : IsOrdered fl) (monotone : IsMonotone fl)
    (size max_phrase_length : ℕ) (options : ℕ → ℕ → List F) where
  abbrev Way : ℕ → ℕ → F → Type 0
  Way = Cover fl max_phrase_length options

  Way-le : {s e : ℕ} {x : F} → Way s e x → s ≤ e
  Way-le (single s e x le short m) = le
  Way-le (joined s j e next a b) = omega (arith, next, Way-le a, Way-le b)

  -- The cell of the span is not smaller than `x`.
  abbrev Bounded : ℕ → ℕ → F → SquareMatrix fl → Type 0
  Bounded s e x m = NotBelow fl ordered x (s * size + e) m

  -- The spans of at most `c` + 1 words are done, and all single options are.
  record IsDone (c : ℕ) (m : SquareMatrix fl) : Type 0 where
    shape : Shape fl ordered size m
    singles :
        (s e : ℕ) (x : F)
        → s ≤ e
        → e < size
        → e < s + max_phrase_length
        → Memᴰ x (options s e)
        → Bounded s e x m
    ways : (s e : ℕ) (x : F) → Way s e x → e < size → e < s + c → Bounded s e x m

  raise_score-IsDone :
      (c s e : ℕ) (score : F) (m : SquareMatrix fl)
      → IsDone c m
      → IsDone c (raise_score fl s e score m)
  raise_score-IsDone c s e score m d = record {
    shape = raise_score-Shape fl ordered size s e score m d.shape;
    singles = λ p q x le lt short i.
        raise_score-keeps fl ordered x (p * size + q) s e score m (d.singles p q x le lt short i);
    ways = λ p q x w lt near.
        raise_score-keeps fl ordered x (p * size + q) s e score m (d.ways p q x w lt near);
  }

  -- The round of the loop over joinAt that joins two parts.
  join_here :
      (c s j e : ℕ) (a b : F) (m : SquareMatrix fl)
      → Way s j a
      → Way (j + 1) e b
      → s < size
      → e < size
      → e ≡ s + c
      → IsDone c m
      → Bounded s e
          (fl.add a b)
          (raise_score fl s e (fl.add (get_score fl m s j) (get_score fl m (j + 1) e)) m)
  unfolding get_score
  join_here c s j e a b m left right hs he near d =
      let sum = fl.add (get_score fl m s j) (get_score fl m (j + 1) e) in
      let rows : m.size ≡ size = d.shape.0 in
      let le = Way-le left in
      let le' = Way-le right in
      let first : fl.gt a (get_score fl m s j) ≡ false =
        subst (λ (t : ℕ). fl.gt a (get_or m.cells (s * t + j) fl.zero_float) ≡ false) (sym rows)
          (d.ways s j a left (omega (arith, he, le')) (omega (arith, near, le'))) in
      let second : fl.gt b (get_score fl m (j + 1) e) ≡ false =
        subst (λ (t : ℕ). fl.gt b (get_or m.cells ((j + 1) * t + e) fl.zero_float) ≡ false)
          (sym rows) (d.ways (j + 1) e b right he (omega (arith, near, le))) in
      ordered.negtrans (fl.add a b) sum
        (get_or (raise_score fl s e sum m).cells (s * size + e) fl.zero_float)
        (monotone.add_mono a (get_score fl m s j) b (get_score fl m (j + 1) e) first second)
        (raise_score-reaches fl ordered size s e sum m hs he d.shape)

  join_spans-IsDone :
      (c s e : ℕ) (m : SquareMatrix fl) → IsDone c m → IsDone c (join_spans fl s e m)
  unfolding join_spans
  join_spans-IsDone c s e m d =
      for_always (IsDone c) _ (e - s) s m (λ j t k. raise_score-IsDone c s e _ t k) d

  join_spans-keeps :
      (x : F) (k s e : ℕ) (m : SquareMatrix fl)
      → NotBelow fl ordered x k m
      → NotBelow fl ordered x k (join_spans fl s e m)
  unfolding join_spans
  join_spans-keeps x k s e m h =
      for_always (NotBelow fl ordered x k) _ (e - s) s m
        (λ j t g. raise_score-keeps fl ordered x k s e _ t g) h

  join_spans-reaches :
      (c s j e : ℕ) (a b : F) (m : SquareMatrix fl)
      → Way s j a
      → Way (j + 1) e b
      → e < size
      → e ≡ s + c
      → IsDone c m
      → Bounded s e (fl.add a b) (join_spans fl s e m)
  unfolding join_spans
  join_spans-reaches c s j e a b m left right he near d =
      let le = Way-le left in
      let le' = Way-le right in
      for_reach (IsDone c) (Bounded s e (fl.add a b)) _ (e - s) s j m
        (λ i t k. raise_score-IsDone c s e _ t k)
        (λ i t g. raise_score-keeps fl ordered (fl.add a b) (s * size + e) s e _ t g)
        (λ t k. join_here c s j e a b t left right (omega (arith, le, le', he)) he near k) le
        (omega (arith, le, le')) d

  -- One round of the loop over the diagonals.
  abbrev diagonal : ℕ → SquareMatrix fl → SquareMatrix fl
  diagonal c m = for_range (size - c) 0 (λ shift t. join_spans fl shift (c + shift) t) m

  diagonal-reaches :
      (c s e : ℕ) (x : F) (m : SquareMatrix fl)
      → Way s e x
      → e < size
      → e ≡ s + c
      → IsDone c m
      → Bounded s e x (diagonal c m)
  diagonal-reaches c s e x m (single p q y le short i) he near d =
      for_always (Bounded p q y) _ (size - c) 0 m
        (λ shift t g. join_spans-keeps y (p * size + q) shift (c + shift) t g)
        (d.singles p q y le he short i)
  diagonal-reaches c s e x m (joined p j q {k} {a} {b} next left right) he near d =
      let right' : Way (j + 1) q b = subst (λ (t : ℕ). Way t q b) next right in
      for_reach (IsDone c) (Bounded p q (fl.add a b)) _ (size - c) 0 p m
        (λ shift t k. join_spans-IsDone c shift (c + shift) t k)
        (λ shift t g. join_spans-keeps (fl.add a b) (p * size + q) shift (c + shift) t g)
        (λ t k.
          let at : c + p ≡ q = omega (arith, near) in
          subst (λ (r : ℕ). Bounded p q (fl.add a b) (join_spans fl p r t)) (sym at)
            (join_spans-reaches c p j q a b t left right' he near k))
        (omega arith) (omega (arith, he, near)) d

  diagonal-IsDone : (c : ℕ) (m : SquareMatrix fl) → IsDone c m → IsDone (c + 1) (diagonal c m)
  diagonal-IsDone c m d =
      let kept : IsDone c (diagonal c m) =
        for_always (IsDone c) _ (size - c) 0 m
          (λ shift t k. join_spans-IsDone c shift (c + shift) t k) d in
      record {
        shape = kept.shape;
        singles = kept.singles;
        ways = λ s e x w he near. elim (Bool-cases (ltb e (s + c))) [
          | inl short ↦ kept.ways s e x w he (ground (arith, short))
          | inr long ↦ diagonal-reaches c s e x m w he (ground (arith, long, near)) d
        ];
      }

  started :
      (m : SquareMatrix fl)
      → Shape fl ordered size m
      → IsDone 1 (collected fl ordered size max_phrase_length options m)
  started m h = record {
    shape = raise_options-Shape fl ordered size max_phrase_length options m h;
    singles = λ s e x le lt short i.
        raise_options-reaches fl ordered size max_phrase_length options m s e x h le lt short i;
    ways = λ s e x w lt near. one_word s e x w lt near;
  }
    where
      one_word :
          (s e : ℕ) (x : F)
          → Way s e x
          → e < size
          → e < s + 1
          → Bounded s e x (collected fl ordered size max_phrase_length options m)
      one_word s e x (single p q y le short i) lt near =
          raise_options-reaches fl ordered size max_phrase_length options m p q y h le lt short i
      one_word s e x (joined p j q next left right) lt near =
          absurd (omega (arith, next, Way-le left, Way-le right, near))

  join_all-IsDone :
      (m : SquareMatrix fl) → IsDone 1 m → IsDone (1 + (size - 1)) (join_all fl size m)
  unfolding join_all
  join_all-IsDone m d =
      for_inv IsDone (λ c t. diagonal c t) (size - 1) 1 (1 + (size - 1)) m
        (λ c t l u k. diagonal-IsDone c t k) refl d

  -- For scores without NaN whose addition is monotone, and a matrix of `size` rows: after
  -- CalcFutureScore no way to cover a span of the sentence by options of its parts, however they
  -- are put together, adds up to more than the cell of the span.
  pub calc_future_scores-Cover :
      (m : SquareMatrix fl) (s e : ℕ) (x : F)
      → m.size ≡ size
      → length m.cells ≡ size * size
      → e < size
      → Cover fl max_phrase_length options s e x
      → fl.gt x (
          get_or
            (calc_future_scores fl size max_phrase_length options m).cells
            (s * size + e)
            fl.zero_float)
        ≡ false
  unfolding calc_future_scores
  calc_future_scores-Cover m s e x rows len lt w =
      let d =
        join_all-IsDone (collected fl ordered size max_phrase_length options m)
          (started m (rows, len)) in
      d.ways s e x w lt (omega (arith, lt))
