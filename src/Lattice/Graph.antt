-- ===== src/Lattice/Graph.antt =====
-- The graph of a lattice: an arc goes from its column to a later one.
use moses.Base.{
  ℕ, zero, suc, ◌+◌, ◌<◌, ◌≡◌, refl, ◌⊎◌, inl, inr, true, false, ◌&&◌, List, [], ◌∷◌, arith, ◌==◌,
  Bool-cases, get_or, set,
}
use mathlib.Core.List.{Memᴰ}
use mathlib.Core.List.Memᴰ
use moses.Lattice.Paths.{Matrix, edge, column_edges, edge_rounds}
use moses.Lattice.Table.{Square, set-Square, get-set_table}

-- An arc from node `i` to node `j`.
abbrev pub Arc : List (List ℕ) → ℕ → ℕ → Type 0
Arc nn i j = (x : ℕ) × Memᴰ x (get_or nn i []) × (j ≡ i + x)

-- What the columns from `s` on set.
abbrev pub Later : List (List ℕ) → ℕ → ℕ → ℕ → Type 0
Later columns s i j = (c : ℕ) × (x : ℕ) × Memᴰ x (get_or columns c []) × (i ≡ s + c) × (j ≡ i + x)

module _ (n : ℕ) where
  column_edges-Square :
      (i : ℕ) (nexts : List ℕ) (e : Matrix) → Square n e → Square n (column_edges i nexts e)
  unfolding column_edges
  column_edges-Square i [] e s = s
  column_edges-Square i (x ∷ nexts) e s =
      column_edges-Square i nexts (set e i (set (get_or e i []) (i + x) true))
        (set-Square false n e i (i + x) true s)

  column_edges-from :
      (i : ℕ) (nexts : List ℕ) (e : Matrix) (k l : ℕ)
      → Square n e
      → k < n
      → l < n
      → edge (column_edges i nexts e) k l ≡ true
      → (edge e k l ≡ true) ⊎ ((x : ℕ) × Memᴰ x nexts × (i ≡ k) × (l ≡ i + x))
  unfolding column_edges edge
  column_edges-from i [] e k l s hk hl h = inl h
  column_edges-from i (x ∷ nexts) e k l s hk hl h =
      let e' = set e i (set (get_or e i []) (i + x) true) in
      let read = get-set_table false n e i (i + x) true s k l hk hl in
      elim (column_edges-from i nexts e' k l (set-Square false n e i (i + x) true s) hk hl h) [
        | inl old ↦ elim (Bool-cases (i == k && i + x == l)) [
          | inl here ↦ inr (x, Memᴰ.head refl, ground (arith, here), ground (arith, here))
          | inr other ↦ inl (ground (arith, read, old, other))
        ]
        | inr (y, m, p, q) ↦ inr (y, Memᴰ.tail m, p, q)
      ]

  column_edges-keeps :
      (i : ℕ) (nexts : List ℕ) (e : Matrix) (k l : ℕ)
      → Square n e
      → k < n
      → l < n
      → edge e k l ≡ true
      → edge (column_edges i nexts e) k l ≡ true
  unfolding column_edges edge
  column_edges-keeps i [] e k l s hk hl h = h
  column_edges-keeps i (x ∷ nexts) e k l s hk hl h =
      let e' = set e i (set (get_or e i []) (i + x) true) in
      let read = get-set_table false n e i (i + x) true s k l hk hl in
      column_edges-keeps i nexts e' k l (set-Square false n e i (i + x) true s) hk hl
        (ground (arith, read, h))

  column_edges-to :
      (i : ℕ) (nexts : List ℕ) (e : Matrix) (x : ℕ)
      → Square n e
      → i < n
      → i + x < n
      → Memᴰ x nexts
      → edge (column_edges i nexts e) i (i + x) ≡ true
  unfolding column_edges edge
  column_edges-to i [] e x s hi hx m = absurd (Memᴰ.not-nil m)
  column_edges-to i (y ∷ nexts) e x s hi hx m =
      let e' = set e i (set (get_or e i []) (i + y) true) in
      let s' = set-Square false n e i (i + y) true s in
      let read = get-set_table false n e i (i + y) true s i (i + x) hi hx in
      elim (Memᴰ.cases_cons m) [
        | inl here ↦ column_edges-keeps i nexts e' i (i + x) s' hi hx (ground (arith, read, here))
        | inr later ↦ column_edges-to i nexts e' x s' hi hx later
      ]

  pub edge_rounds-Square :
      (columns : List (List ℕ)) (s : ℕ) (e : Matrix)
      → Square n e
      → Square n (edge_rounds columns s e)
  unfolding edge_rounds
  edge_rounds-Square [] s e q = q
  edge_rounds-Square (c ∷ columns) s e q =
      edge_rounds-Square columns (s + 1) (column_edges s c e) (column_edges-Square s c e q)

  pub edge_rounds-from :
      (columns : List (List ℕ)) (s : ℕ) (e : Matrix) (k l : ℕ)
      → Square n e
      → k < n
      → l < n
      → edge (edge_rounds columns s e) k l ≡ true
      → (edge e k l ≡ true) ⊎ Later columns s k l
  unfolding edge_rounds
  edge_rounds-from [] s e k l q hk hl h = inl h
  edge_rounds-from (c ∷ columns) s e k l q hk hl h =
      elim (edge_rounds-from columns (s + 1) (column_edges s c e) k l (column_edges-Square s c e q)
        hk hl h) [
          | inl old ↦ elim (column_edges-from s c e k l q hk hl old) [
            | inl older ↦ inl older
            | inr (x, m, p, r) ↦ inr (0, x, m, omega (arith, p), omega (arith, p, r))
          ]
          | inr (d, x, m, p, r) ↦ inr (suc d, x, m, omega (arith, p), r)
        ]

  edge_rounds-keeps :
      (columns : List (List ℕ)) (s : ℕ) (e : Matrix) (k l : ℕ)
      → Square n e
      → k < n
      → l < n
      → edge e k l ≡ true
      → edge (edge_rounds columns s e) k l ≡ true
  unfolding edge_rounds
  edge_rounds-keeps [] s e k l q hk hl h = h
  edge_rounds-keeps (c ∷ columns) s e k l q hk hl h =
      edge_rounds-keeps columns (s + 1) (column_edges s c e) k l (column_edges-Square s c e q) hk hl
        (column_edges-keeps s c e k l q hk hl h)

  pub edge_rounds-to :
      (columns : List (List ℕ)) (s : ℕ) (e : Matrix) (c x : ℕ)
      → Square n e
      → s + c < n
      → s + c + x < n
      → Memᴰ x (get_or columns c [])
      → edge (edge_rounds columns s e) (s + c) (s + c + x) ≡ true
  unfolding edge_rounds
  edge_rounds-to [] s e c x q hc hx m = absurd (Memᴰ.not-nil m)
  edge_rounds-to (col ∷ columns) s e zero x q hc hx m =
      let h : s + 0 ≡ s = omega arith in
      rw h (
        edge_rounds-keeps columns (s + 1) (column_edges s col e) s (s + x)
          (column_edges-Square s col e q) (omega (arith, hc)) (omega (arith, hx))
          (column_edges-to s col e x q (omega (arith, hc)) (omega (arith, hx)) m))
  edge_rounds-to (col ∷ columns) s e (suc c) x q hc hx m =
      let h : s + suc c ≡ s + 1 + c = omega arith in
      rw h (
        edge_rounds-to columns (s + 1) (column_edges s col e) c x (column_edges-Square s col e q)
          (omega (arith, hc)) (omega (arith, hx)) m)
