-- ===== src/Reordering.antt =====
-- Reordering walls and zones: moses/src/ReorderingConstraint.h and ReorderingConstraint.cpp.
pub mod Constraint
pub mod Walls
pub mod Zones
mod Examples
