-- ===== src/Scores.antt =====
-- Scores of a translation and their bookkeeping: moses/src/ScoreIndexManager.h,
-- ScoreIndexManager.cpp and ScoreComponentCollection.h.
pub mod Index
pub mod Collection
pub mod Layout
mod Examples
