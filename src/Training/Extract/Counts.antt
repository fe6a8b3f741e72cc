-- ===== src/Training/Extract/Counts.antt =====
-- How often a foreign word is aligned, in all and within an English phrase.
use moses.Base.{
  ℕ, zero, suc, ◌+◌, ◌≤◌, ◌<◌, ◌≡◌, refl, ap, ◌⊎◌, inl, inr, List, [], ◌∷◌, arith, ◌==◌,
  if◌then◌else◌, Bool-cases, length, get_or,
}
use moses.Training.Extract.{SentenceAlignment}

abbrev pub occurrences : ℕ → List ℕ → ℕ
occurrences f [] = 0
occurrences f (x ∷ xs) = if x == f then occurrences f xs + 1 else occurrences f xs

abbrev pub total : ℕ → List (List ℕ) → ℕ
total f [] = 0
total f (x ∷ xss) = occurrences f x + total f xss

-- Within the `n` words from `e` on.
abbrev pub within_span : ℕ → List (List ℕ) → ℕ → ℕ → ℕ
within_span f xss zero e = 0
within_span f xss (suc n) e = occurrences f (get_or xss e []) + within_span f xss n (suc e)

within_span-cons :
    (f : ℕ) (x : List ℕ) (xss : List (List ℕ)) (n e : ℕ)
    → within_span f (x ∷ xss) n (suc e) ≡ within_span f xss n e
within_span-cons f x xss zero e = refl
within_span-cons f x xss (suc n) e =
    ap (λ t. occurrences f (get_or xss e []) + t) (within_span-cons f x xss n (suc e))

within_span_nil : (f n e : ℕ) → within_span f [] n e ≡ 0
within_span_nil f zero e = refl
within_span_nil f (suc n) e = omega (arith, within_span_nil f n (suc e))

-- What a phrase and a word outside it count is at most the whole.
pub within_span-le-total :
    (f : ℕ) (xss : List (List ℕ)) (n s e : ℕ)
    → (e < s) ⊎ (s + n ≤ e)
    → within_span f xss n s + occurrences f (get_or xss e []) ≤ total f xss
within_span-le-total f [] n s e h = omega (arith, within_span_nil f n s)
within_span-le-total f (x ∷ xss) n (suc s) (suc e) h = omega (
  arith,
  within_span-cons f x xss n s,
  within_span-le-total f xss n s e
      (elim h [ inl l ↦ inl (omega arith) | inr l ↦ inr (omega arith) ]),
)
within_span-le-total f (x ∷ xss) n (suc s) zero h = omega (
  arith,
  within_span-cons f x xss n s,
  within_span-le-total f xss n s (s + n) (inr (omega arith)),
)
within_span-le-total f (x ∷ xss) zero zero zero h = omega arith
within_span-le-total f (x ∷ xss) zero zero (suc e) h =
    omega (arith, within_span-le-total f xss zero zero e (inr (omega arith)))
within_span-le-total f (x ∷ xss) (suc n) zero zero h =
    absurd (elim h [ inl l ↦ omega arith | inr l ↦ omega arith ])
within_span-le-total f (x ∷ xss) (suc n) zero (suc e) h = omega (
  arith,
  within_span-cons f x xss n 0,
  within_span-le-total f xss n 0 e
      (elim h [ inl l ↦ inl (omega arith) | inr l ↦ inr (omega arith) ]),
)

pub occurrences-le-within_span :
    (f : ℕ) (xss : List (List ℕ)) (n s e : ℕ)
    → s ≤ e
    → e < s + n
    → occurrences f (get_or xss e []) ≤ within_span f xss n s
occurrences-le-within_span f xss zero s e l u = absurd (omega arith)
occurrences-le-within_span f xss (suc n) s e l u = elim (Bool-cases (s == e)) [
  | inl here ↦ (let same : e ≡ s = ground arith in rw same (omega arith))
  | inr later ↦
      omega (arith, occurrences-le-within_span f xss n (suc s) e (ground arith) (omega arith))
]

-- What `create` builds: the counts are those of the points, which lie inside both sentences.
pub record IsAlignment (s : SentenceAlignment) : Type 0 where
  pub counted :
      (f : ℕ) → f < length s.foreign → get_or s.aligned_count_f f 0 ≡ total f s.aligned_to_e
  pub counts : length s.aligned_count_f ≡ length s.foreign
  pub words : length s.aligned_to_e ≡ length s.english
  pub inside : (f e : ℕ) → 0 < occurrences f (get_or s.aligned_to_e e []) → f < length s.foreign
