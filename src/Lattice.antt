-- ===== src/Lattice.antt =====
-- Distances in a word lattice: moses/src/FloydWarshall.cpp and WordLattice.cpp.
pub mod Paths
pub mod Walks
mod Table
pub mod Shortest
mod Graph
pub mod Reachable
mod Examples
