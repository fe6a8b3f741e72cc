-- ===== src/Scores/Collection.antt =====
-- ScoreComponentCollection (moses/src/ScoreComponentCollection.h): m_scores as a list. A producer
-- enters by its range of slots, which ScoreIndexManager gives.
use moses.Base.{
  ℕ, zero, suc, ◌+◌, ◌-◌, ◌≤◌, ◌<◌, ◌≡◌, refl, ◌∙◌, ◌⊎◌, inl, inr, Bool, false, List, [], ◌∷◌,
  arith, leb, ◌==◌, length, get_or, set, length-set, get_or-set, if_true, if_false,
}
use moses.FutureCost.Float.{Floats}

module _ {F : Type 0} (fl : Floats F) where
  -- assert(m_scores.size() >= rhs.m_scores.size())
  abbrev pub scores_cover : List F → List F → Bool
  scores_cover xs rhs = leb (length rhs) (length xs)

  unfoldable pub zero_all : List F → List F
  zero_all [] = []
  zero_all (x ∷ xs) = fl.zero_float ∷ zero_all xs

  -- PlusEquals(rhs), where its assertion `scores_cover` holds; callers test that first.
  unfoldable pub plus_equals : List F → List F → List F
  plus_equals [] rhs = []
  plus_equals (x ∷ xs) [] = x ∷ xs
  plus_equals (x ∷ xs) (r ∷ rhs) = fl.add x r ∷ plus_equals xs rhs

  pub length-plus_equals : (xs rhs : List F) → length (plus_equals xs rhs) ≡ length xs
  unfolding plus_equals
  length-plus_equals [] rhs = refl
  length-plus_equals (x ∷ xs) [] = refl
  length-plus_equals (x ∷ xs) (r ∷ rhs) = omega (arith, length-plus_equals xs rhs)

  unfoldable pub minus_equals : List F → List F → List F
  minus_equals [] rhs = []
  minus_equals (x ∷ xs) [] = x ∷ xs
  minus_equals (x ∷ xs) (r ∷ rhs) = fl.sub x r ∷ minus_equals xs rhs

  -- PlusEquals(sp, scores) from the producer's first slot on.
  unfoldable pub plus_equals_from : List F → ℕ → List F → List F
  plus_equals_from xs i [] = xs
  plus_equals_from xs i (v ∷ vs) =
      plus_equals_from (set xs i (fl.add (get_or xs i fl.zero_float) v)) (i + 1) vs

  -- PlusEquals(sp, scores) for a collection, with the slots left.
  unfoldable pub plus_equals_slots : List F → ℕ → ℕ → List F → List F
  plus_equals_slots xs zero i scores = xs
  plus_equals_slots xs (suc n) i scores =
      plus_equals_slots
        (set xs i (fl.add (get_or xs i fl.zero_float) (get_or scores i fl.zero_float))) n (i + 1)
        scores

  -- PlusEquals(sp, score)
  unfoldable pub plus_equals_one : List F → ℕ → F → List F
  plus_equals_one xs i score = set xs i (fl.add (get_or xs i fl.zero_float) score)

  -- Assign(sp, scores)
  unfoldable pub assign_from : List F → ℕ → List F → List F
  assign_from xs i [] = xs
  assign_from xs i (v ∷ vs) = assign_from (set xs i v) (i + 1) vs

  -- Assign(sp, score)
  unfoldable pub assign_one : List F → ℕ → F → List F
  assign_one xs i score = set xs i score

  -- std::inner_product, where there are as many weights as scores: `scores_cover weights xs`.
  -- Callers test that first.
  unfoldable pub inner_product_from : F → List F → List F → F
  inner_product_from sum [] weights = sum
  inner_product_from sum (x ∷ xs) [] = sum
  inner_product_from sum (x ∷ xs) (w ∷ ws) = inner_product_from (fl.add sum (fl.mul x w)) xs ws

  unfoldable pub inner_product : List F → List F → F
  unfolding inner_product_from
  inner_product xs weights = inner_product_from fl.zero_float xs weights

  -- The copying loop, with the slots left.
  unfoldable pub scores_from : List F → ℕ → ℕ → List F
  scores_from xs zero i = []
  scores_from xs (suc n) i = get_or xs i fl.zero_float ∷ scores_from xs n (i + 1)

  -- GetScoresForProducer, for the slots from `begin` to before `end`.
  unfoldable pub get_scores_for_producer : List F → ℕ → ℕ → List F
  unfolding scores_from
  get_scores_for_producer xs begin end = scores_from xs (end - begin) begin

  unfoldable pub get_score_for_producer : List F → ℕ → F
  get_score_for_producer xs begin = get_or xs begin fl.zero_float

  unfoldable pub partial_inner_product : List F → ℕ → ℕ → List F → F
  unfolding get_scores_for_producer inner_product
  partial_inner_product xs begin end weights =
      inner_product (get_scores_for_producer xs begin end) weights

  length-assign_from :
      (xs : List F) (i : ℕ) (vs : List F) → length (assign_from xs i vs) ≡ length xs
  unfolding assign_from
  length-assign_from xs i [] = refl
  length-assign_from xs i (v ∷ vs) = length-assign_from (set xs i v) (i + 1) vs ∙ length-set xs i v

  -- Slots below the first one written stay.
  pub get_or-assign_from :
      (xs : List F) (i : ℕ) (vs : List F) (j : ℕ)
      → (j < i) ⊎ (i + length vs ≤ j)
      → i + length vs ≤ length xs
      → get_or (assign_from xs i vs) j fl.zero_float ≡ get_or xs j fl.zero_float
  unfolding assign_from
  get_or-assign_from xs i [] j h l = refl
  get_or-assign_from xs i (v ∷ vs) j h l =
      let off : (i == j) ≡ false = elim h [ inl p ↦ ground arith | inr p ↦ ground arith ] in
      get_or-assign_from (set xs i v) (i + 1) vs j
        (elim h [ inl p ↦ inl (omega arith) | inr p ↦ inr (omega arith) ])
        (omega (arith, length-set xs i v))
      ∙ get_or-set xs i j v fl.zero_float (omega arith)
      ∙ if_false (i == j) v (get_or xs j fl.zero_float) off

  pub scores_from-assign_from :
      (xs : List F) (i : ℕ) (vs : List F)
      → i + length vs ≤ length xs
      → scores_from (assign_from xs i vs) (length vs) i ≡ vs
  unfolding assign_from scores_from
  scores_from-assign_from xs i [] l = refl
  scores_from-assign_from xs i (v ∷ vs) l =
      let room : i + 1 + length vs ≤ length (set xs i v) = omega (arith, length-set xs i v) in
      let here : get_or (assign_from (set xs i v) (i + 1) vs) i fl.zero_float ≡ v =
        get_or-assign_from (set xs i v) (i + 1) vs i (inl (omega arith)) room
        ∙ get_or-set xs i i v fl.zero_float (omega arith)
        ∙ if_true (i == i) v (get_or xs i fl.zero_float) (ground arith) in
      cc (here, scores_from-assign_from (set xs i v) (i + 1) vs room)

  pub scores_from-assign_from_other :
      (xs : List F) (i : ℕ) (vs : List F) (n j : ℕ)
      → (j + n ≤ i) ⊎ (i + length vs ≤ j)
      → i + length vs ≤ length xs
      → scores_from (assign_from xs i vs) n j ≡ scores_from xs n j
  unfolding scores_from
  scores_from-assign_from_other xs i vs zero j h l = refl
  scores_from-assign_from_other xs i vs (suc n) j h l =
      let side : (j < i) ⊎ (i + length vs ≤ j) = elim h [
        | inl p ↦ inl (omega arith)
        | inr p ↦ inr p
      ] in
      let later : (j + 1 + n ≤ i) ⊎ (i + length vs ≤ j + 1) = elim h [
        | inl p ↦ inl (omega arith)
        | inr p ↦ inr (omega arith)
      ] in
      cc (
        get_or-assign_from xs i vs j side l,
        scores_from-assign_from_other xs i vs n (j + 1) later l,
      )
