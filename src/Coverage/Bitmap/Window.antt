-- ===== src/Coverage/Bitmap/Window.antt =====
-- The two ends of the window that an id reads, each described by what only it satisfies.
use moses.Coverage.Bitmap.{
  WordsBitmap, get_value, get_first_gap_pos, get_last_pos, gap_or_size, last_or_zero, ℕ, length,
}
use moses.Coverage.Bitmap.Gaps.{FilledBelow, EmptyFrom, get_first_gap_pos-cases, get_last_pos-cases}
use moses.Base.{
  ◌+◌, ◌≤◌, ◌<◌, ◌≡◌, refl, ◌⊎◌, inl, inr, true, false, arith, not_found, ltb, ◌==◌, Bool-cases,
  set, get_or-out,
}

-- All words before `g` are translated and the word at `g`, if there is one, is not.
abbrev pub IsStart : WordsBitmap → ℕ → Type 0
IsStart b g = (g ≤ length b) × FilledBelow b g × (get_value b g ≡ false)

-- No word after `l` is translated, and the word at `l` is, or `l` is 0.
abbrev pub IsEnd : WordsBitmap → ℕ → Type 0
IsEnd b l = EmptyFrom b (l + 1) × ((get_value b l ≡ true) ⊎ (l ≡ 0))

pub gap_or_size-IsStart : (b : WordsBitmap) → length b < not_found → IsStart b (gap_or_size b)
gap_or_size-IsStart b h = elim (get_first_gap_pos-cases b) [
  | inl (e, all) ↦ rw e (omega arith, all, get_or-out b (length b) false (omega arith))
  | inr (l, free, before) ↦
      let e : (get_first_gap_pos b == not_found) ≡ false = ground arith in
      rw e (omega arith, before, free)
]

pub last_or_zero-IsEnd : (b : WordsBitmap) → length b < not_found → IsEnd b (last_or_zero b)
last_or_zero-IsEnd b h = elim (get_last_pos-cases b) [
  | inl (e, all) ↦ rw e (λ i l. all i (omega arith), inr refl)
  | inr (l, set, after) ↦
      let e : (get_last_pos b == not_found) ≡ false = ground arith in rw e (after, inl set)
]

IsStart-le : (b : WordsBitmap) (g h : ℕ) → IsStart b g → IsStart b h → h ≤ g
IsStart-le b g h p q = elim (Bool-cases (ltb g h)) [
  | inl lt ↦ absurd (cc (p.2, q.1 g (ground arith)))
  | inr ge ↦ ground arith
]

pub IsStart-unique : (b : WordsBitmap) (g h : ℕ) → IsStart b g → IsStart b h → g ≡ h
IsStart-unique b g h p q = omega (arith, IsStart-le b g h p q, IsStart-le b h g q p)

IsEnd-le : (b : WordsBitmap) (k l : ℕ) → IsEnd b k → IsEnd b l → l ≤ k
IsEnd-le b k l p (_, inr e) = omega arith
IsEnd-le b k l p (_, inl t) = elim (Bool-cases (ltb k l)) [
  | inl lt ↦ absurd (cc (t, p.0 l (ground arith)))
  | inr ge ↦ ground arith
]

pub IsEnd-unique : (b : WordsBitmap) (k l : ℕ) → IsEnd b k → IsEnd b l → k ≡ l
IsEnd-unique b k l p q = omega (arith, IsEnd-le b k l p q, IsEnd-le b l k q p)
