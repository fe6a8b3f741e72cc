-- ===== src/Lattice/Shortest/Relaxed.antt =====
-- One round of floyd_warshall relaxes every pair by way of its node.
use moses.Base.{ℕ, ◌+◌, ◌≤◌, ◌<◌, inl, inr, arith, ltb, if_cases, for_always, for_reach}
use moses.Lattice.Paths.{Table, Matrix, max_dist, cell, set_cell, relax, relax_all}
use moses.Lattice.Walks.{Walk-append}
use moses.Lattice.Table.{set_cell-Square, cell-set_cell, set_cell-every}
use moses.Lattice.Shortest.First.{Step, nodes, IsDistance, IsSound}

module _ (edges : Matrix) where
  sum-IsDistance :
      (k i j p q : ℕ)
      → k < nodes edges
      → p + q < max_dist
      → IsDistance edges i k p
      → IsDistance edges k j q
      → IsDistance edges i j (p + q)
  sum-IsDistance k i j p q hk less (lp, sp) (lq, sq) = (
    omega (arith, less),
    elim sp [
      | inl e ↦ absurd (omega (arith, e, less))
      | inr a ↦ elim sq [
        | inl e ↦ absurd (omega (arith, e, less))
        | inr b ↦ inr (Walk-append (Step edges) (nodes edges) k j hk a b)
      ]
    ],
  )

  relax-IsSound :
      (k i j : ℕ) (d : Table) → k < nodes edges → IsSound edges d → IsSound edges (relax k i j d)
  unfolding relax
  relax-IsSound k i j d hk s =
      let v = cell d i k + cell d k j in
      if_cases (IsSound edges) (ltb v (cell d i j)) (set_cell d i j v) d
        (λ h. record {
          square = set_cell-Square (nodes edges) d i j v s.square;
          every = set_cell-every (IsDistance edges) (nodes edges) d i j v s.square s.every (λ hi hj.
              sum-IsDistance k i j (cell d i k) (cell d k j) hk
                (ground (arith, h, (s.every i j hi hj).0)) (s.every i k hi hk) (s.every k j hk hj));
        })
        (λ h. s)

  -- No entry is above that of `old`.
  pub record IsBelow (old d : Table) : Type 0 where
    pub sound : IsSound edges d
    pub below : (i j : ℕ) → i < nodes edges → j < nodes edges → cell d i j ≤ cell old i j

  relax-IsBelow :
      (old : Table) (k i j : ℕ) (d : Table)
      → k < nodes edges
      → IsBelow old d
      → IsBelow old (relax k i j d)
  unfolding relax
  relax-IsBelow old k i j d hk s =
      let v = cell d i k + cell d k j in
      record {
        sound = relax-IsSound k i j d hk s.sound;
        below =
            if_cases
              (λ e. (p q : ℕ) → p < nodes edges → q < nodes edges → cell e p q ≤ cell old p q)
              (ltb v (cell d i j)) (set_cell d i j v) d
              (λ h.
                set_cell-every (λ p q w. w ≤ cell old p q) (nodes edges) d i j v s.sound.square
                  s.below (λ hi hj. ground (arith, h, s.below i j hi hj)))
              (λ h. s.below);
      }

  -- The pair (i, j) has been relaxed by way of `k`.
  pub record IsRelaxed (old : Table) (k i j : ℕ) (d : Table) : Type 0 where
    pub kept : IsBelow old d
    pub done : cell d i j ≤ cell old i k + cell old k j

  relax-IsRelaxed :
      (old : Table) (k i j p q : ℕ) (d : Table)
      → k < nodes edges
      → i < nodes edges
      → j < nodes edges
      → IsRelaxed old k i j d
      → IsRelaxed old k i j (relax k p q d)
  relax-IsRelaxed old k i j p q d hk hi hj s =
      let now =
        relax-IsBelow d k p q d hk
          (record { sound = s.kept.sound; below = λ a b ha hb. omega arith }) in
      record {
        kept = relax-IsBelow old k p q d hk s.kept;
        done = omega (arith, now.below i j hi hj, s.done);
      }

  relax_here :
      (old : Table) (k i j : ℕ) (d : Table)
      → k < nodes edges
      → i < nodes edges
      → j < nodes edges
      → IsBelow old d
      → IsRelaxed old k i j (relax k i j d)
  unfolding relax
  relax_here old k i j d hk hi hj s =
      let v = cell d i k + cell d k j in
      let read = cell-set_cell (nodes edges) d i j v i j s.sound.square hi hj in
      record {
        kept = relax-IsBelow old k i j d hk s;
        done =
            if_cases (λ e. cell e i j ≤ cell old i k + cell old k j) (ltb v (cell d i j))
              (set_cell d i j v) d (λ h. ground (arith, read, s.below i k hi hk, s.below k j hk hj))
              (λ h. ground (arith, h, s.below i k hi hk, s.below k j hk hj));
      }

  pub relax_all-IsRelaxed :
      (k i j : ℕ) (d : Table)
      → k < nodes edges
      → i < nodes edges
      → j < nodes edges
      → IsSound edges d
      → IsRelaxed d k i j (relax_all (nodes edges) k d)
  unfolding relax_all
  relax_all-IsRelaxed k i j d hk hi hj s =
      for_reach (IsBelow d) (IsRelaxed d k i j) _ (nodes edges) 0 i d
        (λ p e t.
          for_always (IsBelow d) _ (nodes edges) 0 e (λ q f u. relax-IsBelow d k p q f hk u) t)
        (λ p e t.
          for_always (IsRelaxed d k i j) _ (nodes edges) 0 e
            (λ q f u. relax-IsRelaxed d k i j p q f hk hi hj u) t)
        (λ e t.
          for_reach (IsBelow d) (IsRelaxed d k i j) _ (nodes edges) 0 j e
            (λ q f u. relax-IsBelow d k i q f hk u)
            (λ q f u. relax-IsRelaxed d k i j i q f hk hi hj u)
            (λ f u. relax_here d k i j f hk hi hj u) (omega arith) (omega (arith, hj)) t)
        (omega arith) (omega (arith, hi)) (record { sound = s; below = λ a b ha hb. omega arith })

  pub relax_all-IsSound :
      (k : ℕ) (d : Table)
      → k < nodes edges
      → IsSound edges d
      → IsSound edges (relax_all (nodes edges) k d)
  unfolding relax_all
  relax_all-IsSound k d hk s =
      for_always (IsSound edges) _ (nodes edges) 0 d
        (λ p e t.
          for_always (IsSound edges) _ (nodes edges) 0 e (λ q f u. relax-IsSound k p q f hk u) t)
        s
