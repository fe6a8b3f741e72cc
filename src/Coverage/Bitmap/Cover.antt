-- ===== src/Coverage/Bitmap/Cover.antt =====
-- Marking a span as translated: what is read afterwards, overlaps and counts.
use moses.Base.{
  ℕ, zero, suc, ◌+◌, ◌-◌, ◌≤◌, ◌<◌, ◌≡◌, refl, ◌∙◌, ◌↔◌, inl, inr, Bool, true, false, ◌&&◌, [], ◌∷◌,
  arith, ltb, leb, ◌==◌, if◌then◌else◌, Bool-cases, length, set, length-set, get_or-set,
}
use moses.Coverage.Range.{WordsRange, Within}
use moses.Coverage.Bitmap.{
  WordsBitmap, get_value, set_rounds, set_values, get_num_words_covered, any_rounds, overlap,
}

set_rounds-length : (n p : ℕ) (v : Bool) (b : WordsBitmap) → length (set_rounds n p v b) ≡ length b
unfolding set_rounds
set_rounds-length zero p v b = refl
set_rounds-length (suc n) p v b = set_rounds-length n (p + 1) v (set b p v) ∙ length-set b p v

pub length-set_values :
    (b : WordsBitmap) (s e : ℕ) (v : Bool) → length (set_values b s e v) ≡ length b
unfolding set_values
length-set_values b s e v = set_rounds-length (e + 1 - s) s v b

get_value-set_rounds :
    (n p : ℕ) (v : Bool) (b : WordsBitmap) (j : ℕ)
    → p + n ≤ length b
    → get_value (set_rounds n p v b) j ≡ (if leb p j && ltb j (p + n) then v else get_value b j)
unfolding set_rounds
get_value-set_rounds zero p v b j h = ground arith
get_value-set_rounds (suc n) p v b j h = ground (
  arith,
  get_value-set_rounds n (p + 1) v (set b p v) j (omega (arith, length-set b p v)),
  get_or-set b p j v false (omega arith),
)

-- SetValue over a span inside the sentence writes that span and leaves the rest.
pub get_value-set_values :
    (b : WordsBitmap) (s e : ℕ) (v : Bool) (j : ℕ)
    → s ≤ e
    → e < length b
    → get_value (set_values b s e v) j ≡ (if leb s j && leb j e then v else get_value b j)
unfolding set_values
get_value-set_values b s e v j h l =
    ground (arith, get_value-set_rounds (e + 1 - s) s v b j (omega arith))

-- The positions of the span are all untranslated.
abbrev pub FreeAt : WordsBitmap → ℕ → ℕ → Type 0
FreeAt b lo hi = (i : ℕ) → lo ≤ i → i < hi → get_value b i ≡ false

pub FreeAt-grow :
    (b : WordsBitmap) (lo hi : ℕ) → get_value b lo ≡ false → FreeAt b (lo + 1) hi → FreeAt b lo hi
FreeAt-grow b lo hi e h i l u = elim (Bool-cases (lo == i)) [
  | inl same ↦ (let p : lo ≡ i = ground arith in rw p at e)
  | inr other ↦ h i (ground arith) u
]

any_rounds-false :
    (b : WordsBitmap) (n p m : ℕ) → p + n ≡ m → (any_rounds b n p ≡ false) ↔ FreeAt b p m
unfolding any_rounds
any_rounds-false b zero p m h = (λ _ i l u. absurd (omega arith), λ _. refl)
any_rounds-false b (suc n) p m h = elim (Bool-cases (get_value b p)) [
  | inl t ↦ rw t (λ e. absurd (cc), λ free. cc (t, free p (omega arith) (omega arith)))
  | inr f ↦
      let ih = any_rounds-false b n (p + 1) m (omega arith) in
      rw f (λ e. FreeAt-grow b p m f (ih.0 e), λ free. ih.1 (λ i l u. free i (omega arith) u))
]

-- A span that does not end before it starts overlaps no translated word of a bitmap exactly when
-- all of its words are untranslated.
pub overlap-false :
    (b : WordsBitmap) (r : WordsRange)
    → r.start_pos ≤ r.end_pos
    → (overlap b r ≡ false) ↔ FreeAt b r.start_pos (r.end_pos + 1)
unfolding overlap
overlap-false b r h =
    any_rounds-false b (r.end_pos + 1 - r.start_pos) r.start_pos (r.end_pos + 1) (omega arith)

get_num_words_covered-set :
    (b : WordsBitmap) (p : ℕ)
    → p < length b
    → get_value b p ≡ false
    → get_num_words_covered (set b p true) ≡ get_num_words_covered b + 1
unfolding get_num_words_covered
get_num_words_covered-set [] p l e = absurd (omega arith)
get_num_words_covered-set (flag ∷ b) zero l e = ground arith
get_num_words_covered-set (flag ∷ b) (suc p) l e =
    ground (arith, get_num_words_covered-set b p (omega arith) e)

get_num_words_covered-set_rounds :
    (n p : ℕ) (b : WordsBitmap)
    → p + n ≤ length b
    → FreeAt b p (p + n)
    → get_num_words_covered (set_rounds n p true b) ≡ get_num_words_covered b + n
unfolding set_rounds
get_num_words_covered-set_rounds zero p b h free = omega arith
get_num_words_covered-set_rounds (suc n) p b h free =
    let now = get_num_words_covered-set b p (omega arith) (free p (omega arith) (omega arith)) in
    let rest =
      get_num_words_covered-set_rounds n (p + 1) (set b p true) (omega (arith, length-set b p true))
        later in
    omega arith
  where
    later : FreeAt (set b p true) (p + 1) (p + 1 + n)
    later i l u =
        ground
          (arith, get_or-set b p i true false (omega arith), free i (omega arith) (omega arith))

-- Translating a span inside the sentence that overlaps no translated word adds its length to the
-- number of words covered.
pub get_num_words_covered-set_values :
    (b : WordsBitmap) (r : WordsRange)
    → Within (length b) r
    → overlap b r ≡ false
    → get_num_words_covered (set_values b r.start_pos r.end_pos true)
      ≡ get_num_words_covered b + (r.end_pos + 1 - r.start_pos)
unfolding set_values
get_num_words_covered-set_values b r (h, l) free =
    get_num_words_covered-set_rounds (r.end_pos + 1 - r.start_pos) r.start_pos b (omega arith)
      (λ i a u. (overlap-false b r h).0 free i a (omega arith))

pub get_num_words_covered-le : (b : WordsBitmap) → get_num_words_covered b ≤ length b
unfolding get_num_words_covered
get_num_words_covered-le [] = omega arith
get_num_words_covered-le (flag ∷ b) = ground (arith, get_num_words_covered-le b)
