-- ===== src/Lattice/Table.antt =====
-- Square tables: reading a cell after a write.
use moses.Base.{
  ℕ, zero, suc, ◌<◌, ◌≡◌, refl, sym, ap, ◌∙◌, inl, inr, ◌&&◌, List, [], ◌∷◌, arith, ◌==◌,
  if◌then◌else◌, Bool-cases, length, get_or, set, replicate, length-set, length-replicate, if_cases,
}
use moses.Lattice.Paths.{Table, cell, set_cell}
use mathlib.Core.Path.{subst}

get_or-set_in {ℓ} :
    {A : Type ℓ} (xs : List A) (i j : ℕ) (v d : A)
    → j < length xs
    → get_or (set xs i v) j d ≡ (if i == j then v else get_or xs j d)
get_or-set_in [] i j v d h = absurd (omega arith)
get_or-set_in (x ∷ xs) zero zero v d h = refl
get_or-set_in (x ∷ xs) zero (suc j) v d h = ground arith
get_or-set_in (x ∷ xs) (suc i) zero v d h = ground arith
get_or-set_in (x ∷ xs) (suc i) (suc j) v d h = ground (arith, get_or-set_in xs i j v d)

-- `n` rows of `n` cells.
pub record Square {A : Type 0} (n : ℕ) (d : List (List A)) : Type 0 where
  pub rows : length d ≡ n
  pub columns : (i : ℕ) → i < n → length (get_or d i []) ≡ n

-- A row of a table whose rows are alike.
get_or-replicate_in : {A : Type 0} (m i : ℕ) (x d : A) → i < m → get_or (replicate m x) i d ≡ x
get_or-replicate_in zero i x d h = absurd (omega arith)
get_or-replicate_in (suc m) zero x d h = refl
get_or-replicate_in (suc m) (suc i) x d h = get_or-replicate_in m i x d (omega arith)

pub replicate-Square : {A : Type 0} (n : ℕ) (z : A) → Square n (replicate n (replicate n z))
replicate-Square {A} n z = record {
  rows = length-replicate n (replicate n z);
  columns = λ i h.
      ap (λ (xs : List A). length xs) (get_or-replicate_in n i (replicate n z) [] h)
      ∙ length-replicate n z;
}

module _ {A : Type 0} (z : A) (n : ℕ) (d : List (List A)) (i j : ℕ) (v : A) (s : Square n d) where
  pub set-Square : Square n (set d i (set (get_or d i []) j v))
  set-Square = record {
    rows = length-set d i (set (get_or d i []) j v) ∙ s.rows;
    columns = λ k h.
        let row = set (get_or d i []) j v in
        let read = get_or-set_in d i k row [] (omega (arith, s.rows, h)) in
        elim (Bool-cases (i == k)) [
          | inl here ↦
              let same : i ≡ k = ground (arith, here) in
              let len : length (get_or d i []) ≡ n = s.columns i (omega (arith, same, h)) in
              rw read (rw here (length-set (get_or d i []) j v ∙ len))
          | inr other ↦ rw read (rw other (s.columns k h))
        ];
  }

  -- A cell of the table after a write, wherever it went.
  pub get-set_table :
      (k l : ℕ)
      → k < n
      → l < n
      → get_or (get_or (set d i (set (get_or d i []) j v)) k []) l z
        ≡ (if i == k && j == l then v else get_or (get_or d k []) l z)
  get-set_table k l hk hl =
      let row = set (get_or d i []) j v in
      let read = get_or-set_in d i k row [] (omega (arith, s.rows, hk)) in
      elim (Bool-cases (i == k)) [
        | inl here ↦
            let same : i ≡ k = ground (arith, here) in
            let len : length (get_or d i []) ≡ n = s.columns i (omega (arith, same, hk)) in
            let inner = get_or-set_in (get_or d i []) j l v z (omega (arith, len, hl)) in
            let old : get_or (get_or d i []) l z ≡ get_or (get_or d k []) l z =
              ap (λ (t : ℕ). get_or (get_or d t []) l z) same in
            rw read (ground (arith, here, inner, old))
        | inr other ↦ rw read (ground (arith, other))
      ]

pub set_cell-Square : (n : ℕ) (d : Table) (i j v : ℕ) → Square n d → Square n (set_cell d i j v)
unfolding set_cell
set_cell-Square n d i j v s = set-Square 0 n d i j v s

pub cell-set_cell :
    (n : ℕ) (d : Table) (i j v k l : ℕ)
    → Square n d
    → k < n
    → l < n
    → cell (set_cell d i j v) k l ≡ (if i == k && j == l then v else cell d k l)
unfolding cell set_cell
cell-set_cell n d i j v k l s hk hl = get-set_table 0 n d i j v s k l hk hl

-- What holds of every cell, and of the value written, holds of every cell afterwards.
pub set_cell-every :
    (P : ℕ → ℕ → ℕ → Type 0) (n : ℕ) (d : Table) (i j v : ℕ)
    → Square n d
    → ((k l : ℕ) → k < n → l < n → P k l (cell d k l))
    → (i < n → j < n → P i j v)
    → (k l : ℕ) → k < n
    → l < n
    → P k l (cell (set_cell d i j v) k l)
set_cell-every P n d i j v s all new k l hk hl =
    subst (P k l) (sym (cell-set_cell n d i j v k l s hk hl)) (
      if_cases (P k l) (i == k && j == l) v (cell d k l)
        (λ h.
          let first : i ≡ k = ground (arith, h) in
          let second : j ≡ l = ground (arith, h) in
          subst (λ (t : ℕ). P t l v) first
            (subst (λ (t : ℕ). P i t v) second
              (new (omega (arith, first, hk)) (omega (arith, second, hl)))))
        (λ h. all k l hk hl))
