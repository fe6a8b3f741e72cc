-- ===== src/Lattice/Shortest.antt =====
-- floyd_warshall computes the lengths of shortest walks.
mod First
mod Relaxed
use moses.Base.{ℕ, suc, ◌+◌, ◌-◌, ◌≤◌, ◌<◌, ◌≡◌, ◌⊎◌, inl, inr, arith, length, for_inv}
use moses.Lattice.Paths.{Table, Matrix, max_dist, cell, init_table, relax_all, floyd_warshall}
use moses.Lattice.Walks.{Walk, direct, via, Walk-split}
use mathlib.Core.Path.{subst}
pub use moses.Lattice.Shortest.First.{Step}
use moses.Lattice.Shortest.First.{nodes, IsSound, init_table-IsSound, init_table-IsFirst}
use moses.Lattice.Shortest.Relaxed.{relax_all-IsRelaxed, relax_all-IsSound}

module _ (edges : Matrix) where
  -- No entry is above the length of a walk that passes only nodes below `k`.
  record IsShort (k : ℕ) (d : Table) : Type 0 where
    sound : IsSound edges d
    short :
        (i j l : ℕ) → i < nodes edges → j < nodes edges → Walk (Step edges) k j i l → cell d i j ≤ l

  init_table-IsShort : IsShort 0 (init_table edges)
  init_table-IsShort = record {
    sound = init_table-IsSound edges;
    short = λ i j l hi hj w. bound i j l hi hj w;
  }
    where
      bound :
          (i j l : ℕ)
          → i < nodes edges
          → j < nodes edges
          → Walk (Step edges) 0 j i l
          → cell (init_table edges) i j ≤ l
      bound i j l hi hj (direct (there, other)) =
          ground (arith, there, other, (init_table-IsFirst edges i j hi hj).value)
      bound i j l hi hj (via m s h w) = absurd (omega (arith, h))

  round-IsShort :
      (k : ℕ) (d : Table)
      → k < nodes edges
      → IsShort k d
      → IsShort (k + 1) (relax_all (nodes edges) k d)
  round-IsShort k d hk s = record {
    sound = relax_all-IsSound edges k d hk s.sound;
    short = λ i j l hi hj w.
        let r = relax_all-IsRelaxed edges k i j d hk hi hj s.sound in
        let w' : Walk (Step edges) (suc k) j i l =
          subst (λ (t : ℕ). Walk (Step edges) t j i l) (omega arith) w in
        elim (Walk-split (Step edges) k j w') [
          | inl v ↦ omega (arith, r.kept.below i j hi hj, s.short i j l hi hj v)
          | inr (p, q, a, b, le) ↦
              omega (arith, r.done, s.short i k p hi hk a, s.short k j q hk hj b, le)
        ];
  }

  all_rounds : IsShort (nodes edges) (floyd_warshall edges)
  unfolding floyd_warshall
  all_rounds =
      for_inv IsShort (λ k d. relax_all (nodes edges) k d) (nodes edges) 0 (nodes edges)
        (init_table edges) (λ k d l u s. round-IsShort k d u s) (omega arith) init_table-IsShort

  -- If there is a walk of `l` edges from node i to node j, fewer than MAX_DIST, none of which leads
  -- from a node to itself, then the entry of
  -- the table for i and j is at most l, and it is the length of such a walk from i to j: the
  -- distance.
  pub floyd_warshall-shortest :
      (i j l : ℕ)
      → i < length edges
      → j < length edges
      → l < max_dist
      → Walk (Step edges) (length edges) j i l
      → (cell (floyd_warshall edges) i j ≤ l)
        × Walk (Step edges) (length edges) j i (cell (floyd_warshall edges) i j)
  floyd_warshall-shortest i j l hi hj less w =
      let le = all_rounds.short i j l hi hj w in
      (
        le,
        elim (all_rounds.sound.every i j hi hj).1 [
          | inl e ↦ absurd (omega (arith, e, le, less))
          | inr v ↦ v
        ],
      )

  pub floyd_warshall-cases :
      (i j : ℕ)
      → i < length edges
      → j < length edges
      → (cell (floyd_warshall edges) i j ≡ max_dist)
        ⊎ Walk (Step edges) (length edges) j i (cell (floyd_warshall edges) i j)
  floyd_warshall-cases i j hi hj = (all_rounds.sound.every i j hi hj).1
