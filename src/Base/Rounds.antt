-- ===== src/Base/Rounds.antt =====
-- Counted loops: for (i = first; i < first + n; i++) s = body(i, s).
use mathlib.Core.Logic.{inl, inr}
use moses.Base.Tests.{◌==◌, Bool-cases}
use Prim.Native.Nat.{ℕ, zero, suc, ◌+◌, ◌<◌, ◌≤◌}
use mathlib.Core.Path.{◌≡◌, refl, ◌∙◌, ap, subst}
use native.Mathlib.Omega.{arith}

unfoldable pub for_range {ℓ} : {S : Type ℓ} → ℕ → ℕ → (ℕ → S → S) → S → S
for_range zero first body s = s
for_range (suc n) first body s = for_range n (first + 1) body (body first s)

-- A loop in two parts.
pub for_split {ℓ} :
    {S : Type ℓ} (body : ℕ → S → S) (k n m first mid : ℕ) (s : S)
    → m ≡ k + n
    → mid ≡ first + k
    → for_range m first body s ≡ for_range n mid body (for_range k first body s)
unfolding for_range
for_split body zero n m first mid s h e =
    let h' : m ≡ n = omega arith in let e' : mid ≡ first = omega arith in rw (h', e')
for_split body (suc k) n m first mid s h e =
    let h' : m ≡ suc (k + n) = omega arith in
    rw h' (for_split body k n (k + n) (first + 1) mid (body first s) refl (omega arith))

-- Bodies that agree in the loop's range give the same result.
pub for_cong {ℓ} :
    {S : Type ℓ} (f g : ℕ → S → S) (n first : ℕ) (s : S)
    → ((i : ℕ) (t : S) → first ≤ i → i < first + n → f i t ≡ g i t)
    → for_range n first f s ≡ for_range n first g s
unfolding for_range
for_cong f g zero first s h = refl
for_cong f g (suc n) first s h =
    ap (λ t. for_range n (first + 1) f t) (h first s (omega arith) (omega arith))
    ∙ for_cong f g n (first + 1) (g first s) (λ i t l u. h i t (omega arith) (omega arith))

-- A loop whose body does nothing to `s` in its range keeps `s`.
pub for_keep {ℓ} :
    {S : Type ℓ} (f : ℕ → S → S) (n first : ℕ) (s : S)
    → ((i : ℕ) → first ≤ i → i < first + n → f i s ≡ s)
    → for_range n first f s ≡ s
unfolding for_range
for_keep f zero first s h = refl
for_keep f (suc n) first s h =
    ap (λ t. for_range n (first + 1) f t) (h first (omega arith) (omega arith))
    ∙ for_keep f n (first + 1) s (λ i l u. h i (omega arith) (omega arith))

-- The invariant rule.
pub for_inv {ℓ κ} :
    {S : Type ℓ} (P : ℕ → S → Type κ) (f : ℕ → S → S) (n first last : ℕ) (s : S)
    → ((i : ℕ) (t : S) → first ≤ i → i < last → P i t → P (i + 1) (f i t))
    → last ≡ first + n
    → P first s
    → P last (for_range n first f s)
unfolding for_range
for_inv P f zero first last s h e p = let e' : last ≡ first = omega arith in rw e' p
for_inv P f (suc n) first last s h e p =
    for_inv P f n (first + 1) last (f first s) (λ i t l u. h i t (omega arith) u) (omega arith)
      (h first s (omega arith) (omega arith) p)

-- What every round keeps holds after the loop.
pub for_always {ℓ κ} :
    {S : Type ℓ} (P : S → Type κ) (f : ℕ → S → S) (n first : ℕ) (s : S)
    → ((i : ℕ) (t : S) → P t → P (f i t))
    → P s
    → P (for_range n first f s)
unfolding for_range
for_always P f zero first s h p = p
for_always P f (suc n) first s h p = for_always P f n (first + 1) (f first s) h (h first s p)

-- What round `k` brings about, and every round keeps, holds after the loop.
pub for_reach {ℓ κ μ} :
    {S : Type ℓ} (I : S → Type κ) (P : S → Type μ) (f : ℕ → S → S) (n first k : ℕ) (s : S)
    → ((i : ℕ) (t : S) → I t → I (f i t))
    → ((i : ℕ) (t : S) → P t → P (f i t))
    → ((t : S) → I t → P (f k t))
    → first ≤ k
    → k < first + n
    → I s
    → P (for_range n first f s)
unfolding for_range
for_reach I P f zero first k s hi hp here l u i = absurd (omega arith)
for_reach I P f (suc n) first k s hi hp here l u i = elim (Bool-cases (k == first)) [
  | inl now ↦
      let same : k ≡ first = ground arith in
      for_always P f n (first + 1) (f first s) hp (subst (λ j. P (f j s)) same (here s i))
  | inr later ↦
      for_reach I P f n (first + 1) k (f first s) hi hp here (ground arith) (omega arith)
        (hi first s i)
]
