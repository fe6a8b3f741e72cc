-- ===== src/Lattice/Walks.antt =====
-- Walks in a graph, by the nodes that they pass.
use moses.Base.{ℕ, suc, ◌+◌, ◌≤◌, ◌<◌, ◌≡◌, ◌⊎◌, inl, inr, arith, ◌==◌, Bool-cases}
use mathlib.Core.Path.{subst}

-- A walk from `i` to `j` of a number of edges that passes only nodes below `k` in between.
pub data Walk (step : ℕ → ℕ → Type 0) (k j : ℕ) : ℕ → ℕ → Type 0 where
  direct : {i : ℕ} → step i j → Walk step k j i 1
  via : {i : ℕ} (m : ℕ) {l : ℕ} → step i m → m < k → Walk step k j m l → Walk step k j i (suc l)

module _ (step : ℕ → ℕ → Type 0) where
  -- A walk that may pass `k` does not pass it, or there are two that do not, up to it and from it.
  pub Walk-split :
      (k j : ℕ) {i l : ℕ}
      → Walk step (suc k) j i l
      → Walk step k j i l
        ⊎ ((p : ℕ) × (q : ℕ) × Walk step k k i p × Walk step k j k q × (p + q ≤ l))
  Walk-split k j (direct s) = inl (direct s)
  Walk-split k j {i} (via m {l} s h w) = elim (Bool-cases (m == k)) [
    | inl at ↦
        let same : m ≡ k = ground (arith, at) in
        let first : step i k = subst (λ (t : ℕ). step i t) same s in
        elim (Walk-split k j w) [
          | inl short ↦
              inr (1, l, direct first, subst (λ (t : ℕ). Walk step k j t l) same short, omega arith)
          | inr (p, q, a, b, le) ↦ inr (1, q, direct first, b, omega (arith, le))
        ]
    | inr below ↦
        let less : m < k = ground (arith, below, h) in
        elim (Walk-split k j w) [
          | inl short ↦ inl (via m s less short)
          | inr (p, q, a, b, le) ↦ inr (suc p, q, via m s less a, b, omega (arith, le))
        ]
  ]

  pub Walk-append :
      (n k j : ℕ) {i p q : ℕ}
      → k < n
      → Walk step n k i p
      → Walk step n j k q
      → Walk step n j i (p + q)
  Walk-append n k j {i} {p} {q} h (direct s) w =
      subst (λ (t : ℕ). Walk step n j i t) (omega arith) (via k s h w)
  Walk-append n k j {i} {p} {q} h (via m {l} s less v) w =
      subst (λ (t : ℕ). Walk step n j i t) (omega arith) (via m s less (Walk-append n k j h v w))

  pub Walk-positive : (n j : ℕ) {i l : ℕ} → Walk step n j i l → 1 ≤ l
  Walk-positive n j (direct s) = omega arith
  Walk-positive n j (via m s h w) = omega arith
