-- ===== src/Coverage/Bitmap/Extend.antt =====
-- A bitmap in which a span that did not overlap it is translated: one hypothesis extension.
use moses.Base.{
  ℕ, ◌≤◌, ◌<◌, ◌≡◌, inl, inr, true, false, ◌&&◌, ◌||◌, arith, ltb, leb, Bool-cases, length,
}
use moses.Coverage.Bitmap.{WordsBitmap, get_value, set_values, overlap, get_first_gap_pos}
use moses.Coverage.Bitmap.Gaps.{get_first_gap_pos-cases}
use moses.Coverage.Bitmap.Cover.{get_value-set_values, overlap-false}

-- `g` is the first untranslated word, and a span that starts at `s` does not start before it.
pub record IsFirstGap (b : WordsBitmap) (s g : ℕ) : Type 0 where
  pub below : g ≤ s
  pub gap : get_value b g ≡ false
  pub filled : (i : ℕ) → i < g → get_value b i ≡ true

pub get_value-extended :
    (b : WordsBitmap) (s e i : ℕ)
    → s ≤ e
    → e < length b
    → get_value (set_values b s e true) i ≡ (get_value b i || (leb s i && leb i e))
get_value-extended b s e i ordered inside =
    ground (arith, get_value-set_values b s e true i ordered inside)

pub start_free :
    (b : WordsBitmap) (s e : ℕ)
    → s ≤ e
    → overlap b (record { start_pos = s; end_pos = e }) ≡ false
    → get_value b s ≡ false
start_free b s e ordered free =
    (overlap-false b (record { start_pos = s; end_pos = e }) ordered).0 free s (omega arith)
      (omega arith)

pub get_first_gap_pos-IsFirstGap :
    (b : WordsBitmap) (s e : ℕ)
    → s ≤ e
    → e < length b
    → overlap b (record { start_pos = s; end_pos = e }) ≡ false
    → IsFirstGap b s (get_first_gap_pos b)
get_first_gap_pos-IsFirstGap b s e ordered inside free = elim (get_first_gap_pos-cases b) [
  | inl (_, all) ↦ absurd (cc (start_free b s e ordered free, all s (omega arith)))
  | inr (l, open_word, before) ↦ record {
    below = elim (Bool-cases (ltb s (get_first_gap_pos b))) [
      | inl lt ↦ absurd (cc (start_free b s e ordered free, before s (ground arith)))
      | inr ge ↦ ground arith
    ];
    gap = open_word;
    filled = before;
  }
]
