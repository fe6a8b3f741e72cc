-- ===== src/Coverage.antt =====
-- Source coverage: moses/src/WordsRange.h, WordsBitmap.h.
pub mod Range
pub mod Bitmap
