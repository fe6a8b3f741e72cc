-- ===== src/Lattice/Reachable.antt =====
-- CanIGetFromAToB says whether there is a walk along the lattice's arcs.
use moses.Base.{
  ℕ, zero, suc, ◌+◌, ◌≤◌, ◌<◌, ◌≡◌, refl, sym, ap, ◌∙◌, ◌↔◌, inl, inr, true, false, List, [], arith,
  length, get_or, replicate, get_or-replicate,
}
use mathlib.Core.List.{Memᴰ}
use moses.Lattice.Paths.{
  Matrix, cell, edge, get_as_edge_matrix, floyd_warshall, lattice_can_get, lattice,
}
use moses.Lattice.Table.{Square, replicate-Square}
use moses.Lattice.Walks.{Walk, direct, via}
use moses.Lattice.Shortest.{Step, floyd_warshall-shortest, floyd_warshall-cases}
use moses.Lattice.Graph.{Arc, edge_rounds-Square, edge_rounds-from, edge_rounds-to}
use mathlib.Core.Path.{subst}

-- Walks along steps that are also steps of another kind.
Walk-map :
    (step other : ℕ → ℕ → Type 0) (n j : ℕ) {i l : ℕ}
    → ((p q : ℕ) → p < n → q < n → step p q → other p q)
    → i < n
    → j < n
    → Walk step n j i l
    → Walk other n j i l
Walk-map step other n j {i} f hi hj (direct s) = direct (f i j hi hj s)
Walk-map step other n j {i} f hi hj (via m s h w) =
    via m (f i m hi h s) h (Walk-map step other n j f h hj w)

no_edge : (n i j : ℕ) → edge (replicate n (replicate n false)) i j ≡ false
unfolding edge
no_edge zero i j = refl
no_edge (suc n) i j = row (suc n) i
  where
    row : (r k : ℕ) → get_or (get_or (replicate r (replicate (suc n) false)) k []) j false ≡ false
    row zero k = refl
    row (suc r) zero = get_or-replicate (suc n) j false
    row (suc r) (suc k) = row r k

module _ (nn : List (List ℕ)) where
  -- Every arc goes ahead and ends at a node of the lattice.
  abbrev pub GoesAhead : Type 0
  GoesAhead = (i x : ℕ) → Memᴰ x (get_or nn i []) → (1 ≤ x) × (i + x ≤ length nn)

  abbrev size : ℕ
  size = length nn + 1

  abbrev matrix : Matrix
  matrix = get_as_edge_matrix nn

  matrix-Square : Square size matrix
  unfolding get_as_edge_matrix
  matrix-Square =
      edge_rounds-Square size nn 0 (replicate size (replicate size false))
        (replicate-Square size false)

  edge-Arc : (i j : ℕ) → i < size → j < size → edge matrix i j ≡ true → Arc nn i j
  unfolding get_as_edge_matrix
  edge-Arc i j hi hj h =
      elim (edge_rounds-from size nn 0 (replicate size (replicate size false)) i j
        (replicate-Square size false) hi hj h) [
          | inl old ↦ absurd (cc (old, no_edge size i j))
          | inr (c, x, m, p, q) ↦
              let same : c ≡ i = omega (arith, p) in
              (x, subst (λ (t : ℕ). Memᴰ x (get_or nn t [])) same m, q)
        ]

  Arc-edge : (i j : ℕ) → i < size → j < size → Arc nn i j → edge matrix i j ≡ true
  unfolding get_as_edge_matrix
  Arc-edge i j hi hj (x, m, p) =
      let set_edge =
        edge_rounds-to size nn 0 (replicate size (replicate size false)) i x
          (replicate-Square size false) (omega (arith, hi)) (omega (arith, hj, p)) m in
      let first : 0 + i ≡ i = omega arith in
      let second : 0 + i + x ≡ j = omega (arith, p) in
      ap (λ (t : ℕ). edge matrix i t) (sym second)
      ∙ ap (λ (t : ℕ). edge matrix t (0 + i + x)) (sym first)
      ∙ set_edge

  module _ (ahead : GoesAhead) where
    Walk-ahead : (n j : ℕ) {i l : ℕ} → Walk (Arc nn) n j i l → i + l ≤ j
    Walk-ahead n j {i} (direct (x, m, p)) = omega (arith, (ahead i x m).0, p)
    Walk-ahead n j {i} (via k (x, m, p) h w) = omega (arith, (ahead i x m).0, p, Walk-ahead n j w)

    Step-Arc : (i j : ℕ) → i < size → j < size → Step matrix i j → Arc nn i j
    Step-Arc i j hi hj (e, other) = edge-Arc i j hi hj e

    Arc-Step : (i j : ℕ) → i < size → j < size → Arc nn i j → Step matrix i j
    Arc-Step i j hi hj (x, m, p) =
        (Arc-edge i j hi hj (x, m, p), ground (arith, (ahead i x m).0, p))

    can_get :
        (start end : ℕ)
        → length nn < 100000
        → start ≤ length nn
        → end ≤ length nn
        → (l : ℕ) × Walk (Arc nn) size end start l
        → lattice_can_get (floyd_warshall matrix) start end ≡ true
    unfolding lattice_can_get
    can_get start end small hs he (l, w) =
        let hs' : start < size = omega (arith, hs) in
        let he' : end < size = omega (arith, he) in
        let n = sym matrix-Square.rows in
        let v = Walk-map (Arc nn) (Step matrix) size end Arc-Step hs' he' w in
        let best =
          floyd_warshall-shortest matrix start end l (omega (arith, hs', matrix-Square.rows))
            (omega (arith, he', matrix-Square.rows))
            (omega (arith, Walk-ahead size end w, small, he))
            (subst (λ (t : ℕ). Walk (Step matrix) t end start l) n v) in
        ground (arith, best.0, Walk-ahead size end w, small, he)

    can_get-Walk :
        (start end : ℕ)
        → start ≤ length nn
        → end ≤ length nn
        → lattice_can_get (floyd_warshall matrix) start end ≡ true
        → (l : ℕ) × Walk (Arc nn) size end start l
    unfolding lattice_can_get
    can_get-Walk start end hs he h =
        let hs' : start < size = omega (arith, hs) in
        let he' : end < size = omega (arith, he) in
        elim (floyd_warshall-cases matrix start end (omega (arith, hs', matrix-Square.rows))
          (omega (arith, he', matrix-Square.rows))) [
            | inl far ↦ absurd (ground (arith, far, h))
            | inr v ↦ (
              cell (floyd_warshall matrix) start end,
              Walk-map (Step matrix) (Arc nn) size end Step-Arc hs' he' (
                  subst
                    (λ (t : ℕ).
                      Walk (Step matrix) t end start (cell (floyd_warshall matrix) start end))
                    matrix-Square.rows v),
            )
          ]

    -- For a lattice of fewer than 100000 columns whose arcs all go ahead, to at most its last node,
    -- and for two of its nodes: CanIGetFromAToB says yes exactly if a walk along arcs leads from
    -- the one to the other.
    pub lattice-can_get :
        (start end : ℕ)
        → length nn < 100000
        → start ≤ length nn
        → end ≤ length nn
        → ((lattice nn).can_i_get_from_a_to_b start end ≡ true)
          ↔ ((l : ℕ) × Walk (Arc nn) (length nn + 1) end start l)
    unfolding lattice
    lattice-can_get start end small hs he =
        (λ h. can_get-Walk start end hs he h, λ w. can_get start end small hs he w)
