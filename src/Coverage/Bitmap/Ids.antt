-- ===== src/Coverage/Bitmap/Ids.antt =====
-- The integer ids of coverage patterns (GetID, GetIDPlus), by which stack diversity is counted.
use moses.Base.{
  ℕ, zero, suc, ◌+◌, ◌-◌, ◌*◌, ◌^◌, ◌≤◌, ◌<◌, max, ◌≡◌, refl, sym, ap, ◌∙◌, inl, inr, Bool, false,
  arith, not_found, ltb, leb, ◌==◌, if◌then◌else◌, Bool-cases, length, eq_of_get_or,
}
use moses.Coverage.Bitmap.{WordsBitmap, get_value, id_rounds, gap_or_size, last_or_zero, get_id}
use moses.Coverage.Bitmap.Window.{IsStart, IsEnd, gap_or_size-IsStart, last_or_zero-IsEnd}
use native.Mathlib.Nat.{pow-suc, pow-le-pow_right}

-- assert(end < start || end-start <= 16)
abbrev pub FitsWindow : WordsBitmap → Type 0
FitsWindow b = last_or_zero b ≤ gap_or_size b + 16

abbrev bit : Bool → ℕ
bit b = if b then 1 else 0

id_rounds-lt : (f : ℕ → Bool) (n p a : ℕ) → id_rounds f n p a + 1 ≤ (a + 1) * 2 ^ n
unfolding id_rounds
id_rounds-lt f zero p a = omega arith
id_rounds-lt f (suc n) p a =
    let ih = id_rounds-lt f n (p - 1) (a * 2 + bit (f p)) in
    let room : (a * 2 + bit (f p) + 1) * 2 ^ n ≤ (a + 1) * 2 * 2 ^ n = grind arith in
    rw pow-suc (omega arith)

pub id_rounds-small : (f : ℕ → Bool) (n p : ℕ) → n ≤ 16 → id_rounds f n p 0 < 65536
id_rounds-small f n p h =
    let top : 2 ^ n ≤ 2 ^ 16 = pow-le-pow_right (omega arith) h in
    omega (arith, id_rounds-lt f n p 0)

-- Equal patterns come from equal flags.
id_rounds-injective :
    (f g : ℕ → Bool) (n p a c : ℕ)
    → n ≤ p
    → id_rounds f n p a ≡ id_rounds g n p c
    → (a ≡ c) × ((i : ℕ) → p < i + n → i ≤ p → f i ≡ g i)
unfolding id_rounds
id_rounds-injective f g zero p a c h e = (e, λ i l u. absurd (omega arith))
id_rounds-injective f g (suc n) p a c h e =
    let (top, below) =
      id_rounds-injective f g n (p - 1) (a * 2 + bit (f p)) (c * 2 + bit (g p)) (omega arith) e in
    let same : f p ≡ g p = ground arith in
    (
      ground arith,
      λ i l u. elim (Bool-cases (i == p)) [
        | inl here ↦ (let q : i ≡ p = ground arith in rw q same)
        | inr lower ↦ below i (ground arith) (ground arith)
      ],
    )

-- Flags that agree give the same pattern.
pub id_rounds-cong :
    (f g : ℕ → Bool) (n p a : ℕ)
    → n ≤ p
    → ((i : ℕ) → p < i + n → i ≤ p → f i ≡ g i)
    → id_rounds f n p a ≡ id_rounds g n p a
unfolding id_rounds
id_rounds-cong f g zero p a h e = refl
id_rounds-cong f g (suc n) p a h e = rw (e p (omega arith) (omega arith)) (
    id_rounds-cong f g n (p - 1) (a * 2 + bit (g p)) (omega arith)
      (λ i l u. e i (omega arith) (omega arith)))

id_rounds-step :
    (f : ℕ → Bool) (n p : ℕ) → f p ≡ false → id_rounds f (suc n) p 0 ≡ id_rounds f n (p - 1) 0
unfolding id_rounds
id_rounds-step f n p h =
    let nothing : 0 * 2 + bit (f p) ≡ 0 = ground arith in ap (λ t. id_rounds f n (p - 1) t) nothing

-- Untranslated words above the window add nothing.
id_rounds-pad :
    (f : ℕ → Bool) (k n p j q : ℕ)
    → ((i : ℕ) → p < i → f i ≡ false)
    → j ≡ k + n
    → q ≡ k + p
    → id_rounds f j q 0 ≡ id_rounds f n p 0
id_rounds-pad f zero n p j q h e d =
    let e' : j ≡ n = omega arith in let d' : q ≡ p = omega arith in rw (e', d')
id_rounds-pad f (suc k) n p j q h e d =
    let e' : j ≡ suc (k + n) = omega arith in
    rw e' (
      id_rounds-step f (k + n) q (h q (omega arith))
      ∙ id_rounds-pad f k n p (k + n) (q - 1) h refl (omega arith))

id_rounds-zero : (f : ℕ → Bool) (p : ℕ) → id_rounds f 0 p 0 ≡ 0
unfolding id_rounds
id_rounds-zero f p = refl

-- The pattern of a bitmap may be read from any position beyond its last word.
pattern_from :
    (f : ℕ → Bool) (l g m : ℕ)
    → ((i : ℕ) → l < i → f i ≡ false)
    → l ≤ m
    → g ≤ m
    → id_rounds f (l - g) l 0 ≡ id_rounds f (m - g) m 0
pattern_from f l g m h lm gm = elim (Bool-cases (leb g l)) [
  | inl le ↦ sym (id_rounds-pad f (m - l) (l - g) l (m - g) m h (ground arith) (omega arith))
  | inr gt ↦
      let none_left : l - g ≡ 0 = ground arith in
      let above : (i : ℕ) → g < i → f i ≡ false = λ i u. h i (ground arith) in
      rw (none_left, id_rounds-zero f l)
        (sym (id_rounds-zero f g)
          ∙ sym (id_rounds-pad f (m - g) 0 g (m - g) m above (omega arith) (omega arith)))
]

-- Within one sentence, bitmaps with the same first gap and the same pattern are equal.
same_pattern :
    (a b : WordsBitmap) (g k l : ℕ)
    → length a ≡ length b
    → IsStart a g
    → IsStart b g
    → IsEnd a k
    → IsEnd b l
    → id_rounds (get_value a) (k - g) k 0 ≡ id_rounds (get_value b) (l - g) l 0
    → a ≡ b
same_pattern a b g k l h sa sb ea eb e =
    let m : ℕ = max (max k l) g in
    let read : id_rounds (get_value a) (m - g) m 0 ≡ id_rounds (get_value b) (m - g) m 0 =
      sym
        (pattern_from (get_value a) k g m (λ i u. ea.0 i (omega arith)) (omega arith) (omega arith))
      ∙ e
      ∙ pattern_from (get_value b) l g m (λ i u. eb.0 i (omega arith)) (omega arith)
          (omega arith) in
    let inside =
      (id_rounds-injective (get_value a) (get_value b) (m - g) m 0 0 (omega arith) read).1 in
    eq_of_get_or a b false h (λ i u. agree i (λ lo hi. inside i (omega arith) (omega arith)))
  where
    agree :
        (i : ℕ)
        → (g < i → i ≤ max (max k l) g → get_value a i ≡ get_value b i)
        → get_value a i ≡ get_value b i
    agree i inside = elim (Bool-cases (ltb i g)) [
      | inl before ↦ sa.1 i (ground arith) ∙ sym (sb.1 i (ground arith))
      | inr later ↦ elim (Bool-cases (i == g)) [
        | inl here ↦ let p : i ≡ g = ground arith in rw p (sa.2 ∙ sym sb.2)
        | inr further ↦ elim (Bool-cases (leb i (max (max k l) g))) [
          | inl lo ↦ inside (ground arith) (ground arith)
          | inr hi ↦ ea.0 i (ground arith) ∙ sym (eb.0 i (ground arith))
        ]
      ]
    ]

-- For bitmaps of one sentence that meet the assertions, GetID tells different coverage apart.
pub get_id_injective :
    (a b : WordsBitmap)
    → length a ≡ length b
    → length a < not_found
    → FitsWindow a
    → FitsWindow b
    → get_id a ≡ get_id b
    → a ≡ b
unfolding get_id
get_id_injective a b h small fa fb e =
    let sa = gap_or_size-IsStart a small in
    let sb = gap_or_size-IsStart b (omega arith) in
    let ea = last_or_zero-IsEnd a small in
    let eb = last_or_zero-IsEnd b (omega arith) in
    let low_a =
      id_rounds-small (get_value a) (last_or_zero a - gap_or_size a) (last_or_zero a)
        (omega arith) in
    let low_b =
      id_rounds-small (get_value b) (last_or_zero b - gap_or_size b) (last_or_zero b)
        (omega arith) in
    let gaps : gap_or_size a ≡ gap_or_size b = omega arith in
    let patterns : id_rounds (get_value a) (last_or_zero a - gap_or_size a) (last_or_zero a) 0
        ≡ id_rounds (get_value b) (last_or_zero b - gap_or_size b) (last_or_zero b) 0 =
      omega arith in
    same_pattern a b (gap_or_size b) (last_or_zero a) (last_or_zero b) h (rw gaps at sa) sb ea eb
      (rw gaps at patterns)
