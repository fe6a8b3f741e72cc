-- ===== src/Lattice/Examples.antt =====
-- Distances in a lattice of three columns, one of whose arcs passes over a column.
use moses.Base.{ℕ, zero, suc, ◌≤◌, ◌≡◌, refl, ◌↔◌, inl, inr, true, false, List, [], ◌∷◌, arith}
use mathlib.Core.List.Memᴰ
use moses.Lattice.Paths.{
  Matrix, cell, edge, floyd_warshall, get_as_edge_matrix, lattice, init_table, relax_all, relax,
}
use moses.Lattice.Walks.{Walk, direct, via}
use moses.Lattice.Shortest.{Step, floyd_warshall-shortest}
use moses.Lattice.Graph.{Arc}
use moses.Lattice.Reachable.{GoesAhead, lattice-can_get}

abbrev columns : List (List ℕ)
columns = (1 ∷ 2 ∷ []) ∷ (1 ∷ []) ∷ (1 ∷ []) ∷ []

-- Its edges: 0 to 1 and 2, 1 to 2, 2 to 3.
abbrev arcs : Matrix
arcs =
    (false ∷ true ∷ true ∷ false ∷ [])
    ∷ (false ∷ false ∷ true ∷ false ∷ [])
    ∷ (false ∷ false ∷ false ∷ true ∷ [])
    ∷ (false ∷ false ∷ false ∷ false ∷ [])
    ∷ []

arcs_of_columns : get_as_edge_matrix columns ≡ arcs
unfolding get_as_edge_matrix
arcs_of_columns = refl

long_way : Walk (Step arcs) 4 3 0 3
unfolding edge
long_way = via 1 (refl, refl) (omega arith) (via 2 (refl, refl) (omega arith) (direct (refl, refl)))

floyd_warshall-shortest_example :
    (cell (floyd_warshall arcs) 0 3 ≤ 3) × Walk (Step arcs) 4 3 0 (cell (floyd_warshall arcs) 0 3)
floyd_warshall-shortest_example =
    floyd_warshall-shortest arcs 0 3 3 (omega arith) (omega arith) (omega arith) long_way

two_arcs : cell (floyd_warshall arcs) 0 3 ≡ 2
unfolding floyd_warshall relax_all relax init_table cell edge
two_arcs = refl

columns-GoesAhead : GoesAhead columns
columns-GoesAhead zero x m = elim (Memᴰ.cases_cons m) [
  | inl here ↦ (omega (arith, here), omega (arith, here))
  | inr more ↦ elim (Memᴰ.cases_cons more) [
    | inl here ↦ (omega (arith, here), omega (arith, here))
    | inr none_left ↦ absurd (Memᴰ.not-nil none_left)
  ]
]
columns-GoesAhead (suc zero) x m = elim (Memᴰ.cases_cons m) [
  | inl here ↦ (omega (arith, here), omega (arith, here))
  | inr none_left ↦ absurd (Memᴰ.not-nil none_left)
]
columns-GoesAhead (suc (suc zero)) x m = elim (Memᴰ.cases_cons m) [
  | inl here ↦ (omega (arith, here), omega (arith, here))
  | inr none_left ↦ absurd (Memᴰ.not-nil none_left)
]
columns-GoesAhead (suc (suc (suc i))) x m = absurd (Memᴰ.not-nil m)

lattice-can_get_example :
    ((lattice columns).can_i_get_from_a_to_b 0 3 ≡ true) ↔ ((l : ℕ) × Walk (Arc columns) 4 3 0 l)
lattice-can_get_example =
    lattice-can_get columns columns-GoesAhead 0 3 (omega arith) (omega arith) (omega arith)
