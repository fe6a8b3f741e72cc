-- ===== src/Lattice/Shortest/First.antt =====
-- The table that init_table fills, and what its entries are.
use moses.Base.{
  ℕ, ◌≤◌, ◌<◌, ◌≡◌, refl, sym, ap, ◌∙◌, ◌⊎◌, inl, inr, true, false, ◌&&◌, arith, ◌==◌,
  if◌then◌else◌, Bool-cases, length, replicate, if_inv, if_true, if_false, if_cases, for_always,
  for_reach,
}
use moses.Lattice.Paths.{Table, Matrix, max_dist, cell, set_cell, edge, init_cell, init_table}
use moses.Lattice.Walks.{Walk, direct}
use moses.Lattice.Table.{Square, replicate-Square, set_cell-Square, cell-set_cell}
use mathlib.Core.Path.{subst}

module _ (edges : Matrix) where
  -- An edge to another node.
  abbrev pub Step : ℕ → ℕ → Type 0
  Step i j = (edge edges i j ≡ true) × ((i == j) ≡ false)

  abbrev pub nodes : ℕ
  nodes = length edges

  -- An entry is MAX_DIST or the length of a walk.
  abbrev pub IsDistance : ℕ → ℕ → ℕ → Type 0
  IsDistance i j v = (v ≤ max_dist) × ((v ≡ max_dist) ⊎ Walk Step nodes j i v)

  pub record IsSound (d : Table) : Type 0 where
    pub square : Square nodes d
    pub every : (i j : ℕ) → i < nodes → j < nodes → IsDistance i j (cell d i j)

  -- The first length of each pair.
  abbrev pub single : ℕ → ℕ → ℕ
  single i j = if i == j then max_dist else (if edge edges i j then 1 else max_dist)

  init_cell-Square : (i j : ℕ) (d : Table) → Square nodes d → Square nodes (init_cell edges i j d)
  unfolding init_cell
  init_cell-Square i j d s =
      let first = set_cell d i j (if edge edges i j then 1 else max_dist) in
      let s' = set_cell-Square nodes d i j (if edge edges i j then 1 else max_dist) s in
      if_inv (Square nodes) (i == j) (set_cell first i j max_dist) first
        (set_cell-Square nodes first i j max_dist s') s'

  cell-init_cell :
      (i j k l : ℕ) (d : Table)
      → Square nodes d
      → k < nodes
      → l < nodes
      → cell (init_cell edges i j d) k l ≡ (if i == k && j == l then single i j else cell d k l)
  unfolding init_cell
  cell-init_cell i j k l d s hk hl =
      let v = (if edge edges i j then 1 else max_dist) in
      let first = set_cell d i j v in
      let s' = set_cell-Square nodes d i j v s in
      let one = cell-set_cell nodes d i j v k l s hk hl in
      let two = cell-set_cell nodes first i j max_dist k l s' hk hl in
      elim (Bool-cases (i == j)) [
        | inl loop ↦ rw loop (ground (arith, one, two, loop))
        | inr other ↦ rw other (ground (arith, one, other))
      ]

  -- The cell has its first length.
  pub record IsFirst (k l : ℕ) (d : Table) : Type 0 where
    pub square : Square nodes d
    pub value : cell d k l ≡ single k l

  init_cell-IsFirst :
      (k l i j : ℕ) (d : Table)
      → k < nodes
      → l < nodes
      → IsFirst k l d
      → IsFirst k l (init_cell edges i j d)
  init_cell-IsFirst k l i j d hk hl s = record {
    square = init_cell-Square i j d s.square;
    value = elim (Bool-cases (i == k && j == l)) [
      | inl here ↦
          let first : i ≡ k = ground (arith, here) in
          let second : j ≡ l = ground (arith, here) in
          cell-init_cell i j k l d s.square hk hl
          ∙ if_true (i == k && j == l) (single i j) (cell d k l) here
          ∙ ap (λ (t : ℕ). single t j) first
          ∙ ap (λ (t : ℕ). single k t) second
      | inr other ↦
          cell-init_cell i j k l d s.square hk hl
          ∙ if_false (i == k && j == l) (single i j) (cell d k l) other
          ∙ s.value
    ];
  }

  init_here :
      (k l : ℕ) (d : Table)
      → k < nodes
      → l < nodes
      → Square nodes d
      → IsFirst k l (init_cell edges k l d)
  init_here k l d hk hl s = record {
    square = init_cell-Square k l d s;
    value =
        cell-init_cell k l k l d s hk hl
        ∙ if_true (k == k && l == l) (single k l) (cell d k l) (ground arith);
  }

  pub init_table-IsFirst : (k l : ℕ) → k < nodes → l < nodes → IsFirst k l (init_table edges)
  unfolding init_table
  init_table-IsFirst k l hk hl =
      for_reach (Square nodes) (IsFirst k l) _ nodes 0 k (replicate nodes (replicate nodes 0))
        (λ i d s. for_always (Square nodes) _ nodes 0 d (λ j e t. init_cell-Square i j e t) s)
        (λ i d s.
          for_always (IsFirst k l) _ nodes 0 d (λ j e t. init_cell-IsFirst k l i j e hk hl t) s)
        (λ d s.
          for_reach (Square nodes) (IsFirst k l) _ nodes 0 l d (λ j e t. init_cell-Square k j e t)
            (λ j e t. init_cell-IsFirst k l k j e hk hl t) (λ e t. init_here k l e hk hl t)
            (omega arith) (omega (arith, hl)) s)
        (omega arith) (omega (arith, hk)) (replicate-Square nodes 0)

  init_table-Square : Square nodes (init_table edges)
  unfolding init_table
  init_table-Square =
      for_always (Square nodes) _ nodes 0 (replicate nodes (replicate nodes 0))
        (λ i d s. for_always (Square nodes) _ nodes 0 d (λ j e t. init_cell-Square i j e t) s)
        (replicate-Square nodes 0)

  single-IsDistance : (i j : ℕ) → IsDistance i j (single i j)
  single-IsDistance i j =
      if_cases (IsDistance i j) (i == j) max_dist (if edge edges i j then 1 else max_dist)
        (λ h. (omega arith, inl refl))
        (λ other.
          if_cases (IsDistance i j) (edge edges i j) 1 max_dist
            (λ there. (omega arith, inr (direct (there, other)))) (λ h. (omega arith, inl refl)))

  pub init_table-IsSound : IsSound (init_table edges)
  init_table-IsSound = record {
    square = init_table-Square;
    every = λ i j hi hj.
        subst (IsDistance i j) (sym (init_table-IsFirst i j hi hj).value) (single-IsDistance i j);
  }
