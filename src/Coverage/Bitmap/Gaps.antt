-- ===== src/Coverage/Bitmap/Gaps.antt =====
-- The first gap and the last translated word of a bitmap.
use moses.Base.{
  ℕ, zero, suc, ◌+◌, ◌≤◌, ◌<◌, ◌≡◌, refl, ◌⊎◌, inl, inr, Bool, true, false, [], ◌∷◌, arith,
  not_found, leb, Bool-cases, length, get_or-out,
}
use moses.Coverage.Bitmap.{
  WordsBitmap, get_value, first_gap_from, get_first_gap_pos, last_pos_below, get_last_pos,
}

-- The positions below `n` are all translated.
abbrev pub FilledBelow : WordsBitmap → ℕ → Type 0
FilledBelow b n = (i : ℕ) → i < n → get_value b i ≡ true

-- The positions from `n` on are all untranslated.
abbrev pub EmptyFrom : WordsBitmap → ℕ → Type 0
EmptyFrom b n = (i : ℕ) → n ≤ i → get_value b i ≡ false

abbrev IsGap : WordsBitmap → ℕ → Type 0
IsGap b g = (g < length b) × (get_value b g ≡ false) × FilledBelow b g

FilledBelow-suc :
    (flag : Bool) (b : WordsBitmap) (n : ℕ)
    → flag ≡ true
    → FilledBelow b n
    → FilledBelow (flag ∷ b) (suc n)
FilledBelow-suc flag b n e h zero l = e
FilledBelow-suc flag b n e h (suc i) l = h i (omega arith)

first_gap_from-cases :
    (p : ℕ) (b : WordsBitmap)
    → ((first_gap_from p b ≡ not_found) × FilledBelow b (length b))
      ⊎ ((g : ℕ) × (first_gap_from p b ≡ p + g) × IsGap b g)
unfolding first_gap_from
first_gap_from-cases p [] = inl (refl, λ i l. elim l [ ])
first_gap_from-cases p (false ∷ b) = inr (0, omega arith, (omega arith, refl, λ i l. elim l [ ]))
first_gap_from-cases p (true ∷ b) = elim (first_gap_from-cases (p + 1) b) [
  | inl (e, all) ↦ inl (e, FilledBelow-suc true b (length b) refl all)
  | inr (g, e, (l, free, before)) ↦
      inr (suc g, omega arith, (omega arith, free, FilledBelow-suc true b g refl before))
]

-- Either all words are translated and GetFirstGapPos is NOT_FOUND, or it is the leftmost
-- untranslated position.
pub get_first_gap_pos-cases :
    (b : WordsBitmap)
    → ((get_first_gap_pos b ≡ not_found) × FilledBelow b (length b)) ⊎ IsGap b (get_first_gap_pos b)
unfolding get_first_gap_pos
get_first_gap_pos-cases b = elim (first_gap_from-cases 0 b) [
  | inl full ↦ inl full
  | inr (g, e, gap) ↦ let e' : first_gap_from 0 b ≡ g = omega arith in inr (rw e' gap)
]

abbrev IsLast : WordsBitmap → ℕ → Type 0
IsLast b l = (l < length b) × (get_value b l ≡ true) × EmptyFrom b (l + 1)

EmptyFrom-down :
    (b : WordsBitmap) (n : ℕ) → get_value b n ≡ false → EmptyFrom b (n + 1) → EmptyFrom b n
EmptyFrom-down b n e h i l = elim (Bool-cases (get_value b i)) [
  | inl t ↦ absurd (clash t)
  | inr f ↦ f
]
  where
    later : n < i → get_value b i ≡ true → ⊥
    later p t = cc (h i (omega arith), t)

    same : n ≡ i → get_value b i ≡ true → ⊥
    same p t = cc

    clash : get_value b i ≡ true → ⊥
    clash t = grind (arith, same, later)

last_pos_below-cases :
    (b : WordsBitmap) (n : ℕ)
    → n ≤ length b
    → EmptyFrom b n
    → ((last_pos_below b n ≡ not_found) × EmptyFrom b 0) ⊎ IsLast b (last_pos_below b n)
unfolding last_pos_below
last_pos_below-cases b zero h e = inl (refl, e)
last_pos_below-cases b (suc n) h e = elim (Bool-cases (get_value b n)) [
  | inl t ↦ rw t (inr (omega arith, t, λ i l. e i (omega arith)))
  | inr f ↦
      rw f
        (last_pos_below-cases b n (omega arith) (EmptyFrom-down b n f (λ i l. e i (omega arith))))
]

-- Either no word is translated and GetLastPos is NOT_FOUND, or it is the rightmost translated
-- position.
pub get_last_pos-cases :
    (b : WordsBitmap) → ((get_last_pos b ≡ not_found) × EmptyFrom b 0) ⊎ IsLast b (get_last_pos b)
unfolding get_last_pos
get_last_pos-cases b =
    last_pos_below-cases b (length b) (omega arith) (λ i l. get_or-out b i false l)

-- A translated word lies at or before the last one, an untranslated one at or behind the first gap.
pub le-last :
    (b : WordsBitmap) (t : ℕ)
    → get_value b t ≡ true
    → (t ≤ get_last_pos b) × (get_last_pos b < length b)
le-last b t f = elim (get_last_pos-cases b) [
  | inl (_, empty) ↦ absurd (cc (f, empty t (omega arith)))
  | inr (l, done, after) ↦ elim (Bool-cases (leb t (get_last_pos b))) [
    | inl le ↦ (ground arith, l)
    | inr gt ↦ absurd (cc (f, after t (ground arith)))
  ]
]

pub gap-le :
    (b : WordsBitmap) (u : ℕ) → u < length b → get_value b u ≡ false → get_first_gap_pos b ≤ u
gap-le b u h f = elim (get_first_gap_pos-cases b) [
  | inl (_, all) ↦ absurd (cc (f, all u h))
  | inr (l, open_word, before) ↦ elim (Bool-cases (leb (get_first_gap_pos b) u)) [
    | inl le ↦ ground arith
    | inr gt ↦ absurd (cc (f, before u (ground arith)))
  ]
]
