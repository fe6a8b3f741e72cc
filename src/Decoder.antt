-- ===== src/Decoder.antt =====
-- The stack decoder: moses/src/Hypothesis.cpp, HypothesisStackNormal.cpp, SearchNormal.cpp.
pub mod Hypothesis
pub mod Stack
pub mod Search
pub mod Sentence
mod Examples
