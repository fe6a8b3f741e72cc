-- ===== src/Phrases.antt =====
-- Words with factors and phrases of them: moses/src/Word.cpp, Phrase.h and Phrase.cpp.
pub mod Word
pub mod Phrase
pub mod Merge
mod Examples
