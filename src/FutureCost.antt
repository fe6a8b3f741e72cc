-- ===== src/FutureCost.antt =====
-- Future cost estimates: moses/src/SquareMatrix.h, SquareMatrix.cpp and
-- TranslationOptionCollection::CalcFutureScore. The type `float` and its operations are a
-- parameter: nothing here rests on how floats are rounded.
pub mod Float
pub mod Matrix
pub mod Incremental
pub mod Options
mod Examples
