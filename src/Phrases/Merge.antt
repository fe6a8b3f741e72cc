-- ===== src/Phrases/Merge.antt =====
-- MergeFactors and IsCompatible of Phrase.cpp belong together.
use moses.Base.{
  ℕ, zero, suc, ◌+◌, ◌≤◌, ◌<◌, ◌≡◌, refl, sym, ap, ◌∙◌, inl, inr, true, false, ◌&&◌, Option, none,
  some, [], ◌∷◌, arith, ltb, leb, ◌==◌, if◌then◌else◌, Bool-cases, length, length-set, get_or-set,
}
use moses.Base.StdSet.{All}
use moses.Phrases.Word.{Word, get_factor, set_factor}
use moses.Phrases.Phrase.{
  Phrase, clash, merge_word, merge_factors, word_compatible, words_compatible, is_compatible,
}

-- The factor `a`, or `b` where that is missing.
abbrev pub or_else : Option ℕ → Option ℕ → Option ℕ
or_else none b = b
or_else (some a) b = some a

abbrev write_over : Word → ℕ → Option ℕ → Word
write_over w i f = elim f [ none ↦ w | some g ↦ set_factor w i (some g) ]

get_factor-write_over :
    (w : Word) (i j : ℕ) (f : Option ℕ)
    → i < length w
    → get_factor (write_over w i f) j
      ≡ (if i == j then or_else f (get_factor w j) else get_factor w j)
get_factor-write_over w i j none h = elim (Bool-cases (i == j)) [
  | inl e ↦ rw e refl
  | inr e ↦ rw e refl
]
get_factor-write_over w i j (some g) h = get_or-set w i j (some g) none h

length-write_over : (w : Word) (i : ℕ) (f : Option ℕ) → length (write_over w i f) ≡ length w
length-write_over w i none = refl
length-write_over w i (some g) = length-set w i (some g)

get_factor-merge_word :
    (n i : ℕ) (w c : Word) (j : ℕ)
    → i + n ≤ length w
    → get_factor (merge_word n i w c) j ≡ (
        if leb i j && ltb j (i + n)
        then or_else (get_factor c j) (get_factor w j)
        else get_factor w j)
unfolding merge_word
get_factor-merge_word zero i w c j h = ground arith
get_factor-merge_word (suc n) i w c j h =
    let w' = write_over w i (get_factor c i) in
    let later =
      get_factor-merge_word n (i + 1) w' c j
        (omega (arith, length-write_over w i (get_factor c i))) in
    let here = get_factor-write_over w i j (get_factor c i) (omega arith) in
    elim (Bool-cases (i == j)) [
      | inl e ↦
          (let same : i ≡ j = ground arith in ground (arith, ap (λ (k : ℕ). get_factor c k) same))
      | inr e ↦ ground arith
    ]

get_factor-merge_all :
    (m : ℕ) (w c : Word) (j : ℕ)
    → m ≤ length w
    → j < m
    → get_factor (merge_word m 0 w c) j ≡ or_else (get_factor c j) (get_factor w j)
get_factor-merge_all m w c j h l = ground (arith, get_factor-merge_word m 0 w c j (omega arith))

word_compatible-true :
    (n i : ℕ) (w v : Word)
    → ((j : ℕ) → i ≤ j → j < i + n → clash (get_factor w j) (get_factor v j) ≡ false)
    → word_compatible n i w v ≡ true
unfolding word_compatible
word_compatible-true zero i w v h = refl
word_compatible-true (suc n) i w v h =
    rw (h i (omega arith) (omega arith))
      (word_compatible-true n (i + 1) w v (λ j p q. h j (omega (arith, p)) (omega (arith, q))))

word_compatible-clash :
    (n i : ℕ) (w v : Word) (j : ℕ)
    → word_compatible n i w v ≡ true
    → i ≤ j
    → j < i + n
    → clash (get_factor w j) (get_factor v j) ≡ false
unfolding word_compatible
word_compatible-clash zero i w v j e p q = ground arith
word_compatible-clash (suc n) i w v j e p q =
    elim (Bool-cases (clash (get_factor w i) (get_factor v i))) [
      | inl t ↦ ground (arith, t)
      | inr f ↦ elim (Bool-cases (i == j)) [
        | inl s ↦
            (let same : i ≡ j = ground arith in
              ◌∙◌ (ap (λ (k : ℕ). clash (get_factor w k) (get_factor v k)) (sym same)) f)
        | inr s ↦
            word_compatible-clash n (i + 1) w v j (ground (arith, f)) (ground arith) (ground arith)
      ]
    ]

clash-or_else : (a b : Option ℕ) → clash (or_else a b) a ≡ false
clash-or_else none b = ground arith
clash-or_else (some a) b = ground arith

clash-or_else_left : (a b : Option ℕ) → clash a b ≡ false → clash (or_else b a) a ≡ false
clash-or_else_left none none h = refl
clash-or_else_left none (some b) h = refl
clash-or_else_left (some a) none h = ground arith
clash-or_else_left (some a) (some b) h = ground arith

words_compatible-merge_factors :
    (m : ℕ) (p copy : Phrase)
    → All (λ w. m ≤ length w) p
    → length p ≡ length copy
    → words_compatible m (merge_factors m p copy) copy ≡ true
unfolding words_compatible merge_factors
words_compatible-merge_factors m [] copy h e = refl
words_compatible-merge_factors m (w ∷ ws) [] h e = ground arith
words_compatible-merge_factors m (w ∷ ws) (c ∷ cs) h e =
    let here = word_compatible-true m 0 (merge_word m 0 w c) c (λ j lo hi.
      rw (get_factor-merge_all m w c j h.0 (omega (arith, hi)))
        ((clash-or_else (get_factor c j) (get_factor w j)))) in
    rw here (words_compatible-merge_factors m ws cs h.1 (omega (arith, e)))

clash-itself : (a b : Option ℕ) → clash a b ≡ false → clash a (or_else b a) ≡ false
clash-itself none none h = refl
clash-itself none (some b) h = refl
clash-itself (some a) none h = ground arith
clash-itself (some a) (some b) h = h

words_compatible-merged :
    (m : ℕ) (p copy : Phrase)
    → All (λ w. m ≤ length w) p
    → length p ≡ length copy
    → words_compatible m p copy ≡ true
    → words_compatible m p (merge_factors m p copy) ≡ true
unfolding words_compatible merge_factors
words_compatible-merged m [] copy h e c = refl
words_compatible-merged m (w ∷ ws) [] h e c = ground arith
words_compatible-merged m (w ∷ ws) (v ∷ vs) h e c =
    let here = word_compatible-true m 0 w (merge_word m 0 w v) (λ j lo hi.
      rw (get_factor-merge_all m w v j h.0 (omega (arith, hi))) (
        (clash-itself (get_factor w j) (get_factor v j)
          (word_compatible-clash m 0 w v j (ground (arith, c)) lo hi)))) in
    rw here (words_compatible-merged m ws vs h.1 (omega (arith, e)) (ground (arith, c)))

length-merge_factors : (m : ℕ) (p copy : Phrase) → length (merge_factors m p copy) ≡ length p
unfolding merge_factors
length-merge_factors m [] copy = refl
length-merge_factors m (w ∷ ws) [] = refl
length-merge_factors m (w ∷ ws) (v ∷ vs) = omega (arith, length-merge_factors m ws vs)

-- Each of the first `m` factors of each word of `r` is that of `copy`, or of `p` where `copy` has
-- none.
abbrev pub Merged : ℕ → Phrase → Phrase → Phrase → Type 0
Merged m [] [] [] = Unit
Merged m (w ∷ p) (c ∷ copy) (v ∷ r) =
    ((j : ℕ) → j < m → get_factor v j ≡ or_else (get_factor c j) (get_factor w j))
    × Merged m p copy r
Merged m _ _ _ = ⊥

merge_factors-Merged :
    (m : ℕ) (p copy : Phrase)
    → All (λ w. m ≤ length w) p
    → length p ≡ length copy
    → Merged m p copy (merge_factors m p copy)
unfolding merge_factors
merge_factors-Merged m [] [] h e = tt
merge_factors-Merged m [] (c ∷ cs) h e = absurd (omega (arith, e))
merge_factors-Merged m (w ∷ ws) [] h e = absurd (omega (arith, e))
merge_factors-Merged m (w ∷ ws) (c ∷ cs) h e =
    (λ j l. get_factor-merge_all m w c j h.0 l, merge_factors-Merged m ws cs h.1 (omega (arith, e)))

-- If the words of a phrase have at least `m` factors and the phrase is compatible with another one,
-- then MergeFactors gives each of the first `m` factors of each word the value that the other
-- phrase has for it, and leaves it where the other has none; the phrase is then compatible with the
-- other one, and the old phrase is compatible with the new one.
pub merge_factors-is_compatible :
    (m : ℕ) (p copy : Phrase)
    → All (λ w. m ≤ length w) p
    → is_compatible m p copy ≡ true
    → Merged m p copy (merge_factors m p copy)
      × (is_compatible m (merge_factors m p copy) copy ≡ true)
      × (is_compatible m p (merge_factors m p copy) ≡ true)
unfolding is_compatible
merge_factors-is_compatible m p copy h c =
    let same : length p ≡ length copy = ground (arith, c) in
    let len = length-merge_factors m p copy in
    (
      merge_factors-Merged m p copy h same,
      ground (arith, words_compatible-merge_factors m p copy h same, same, len),
      ground (arith, words_compatible-merged m p copy h same (ground (arith, c)), same, len),
    )
