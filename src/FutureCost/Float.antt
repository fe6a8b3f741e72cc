-- ===== src/FutureCost/Float.antt =====
-- The operations of the C++ type `float` that the code uses. The type and its arithmetic belong to
-- the compiler and the machine, so they are a parameter of what follows.
use moses.Base.{◌≡◌, Bool, true, false, not}

pub record Floats (F : Type 0) : Type 0 where
  -- 0.0f
  pub zero_float : F
  -- -numeric_limits<float>::infinity()
  pub neg_infinity : F
  -- a + b
  pub add : F → F → F
  -- a - b
  pub sub : F → F → F
  -- a * b
  pub mul : F → F → F
  -- a > b
  pub gt : F → F → Bool
  -- a >= b
  pub ge : F → F → Bool

-- Comparison of floats none of which is NaN: gt is a strict weak order, and ge is its complement.
pub record IsOrdered {F : Type 0} (fl : Floats F) : Type 0 where
  pub asym : (a b : F) → fl.gt a b ≡ true → fl.gt b a ≡ false
  pub negtrans : (a b c : F) → fl.gt a b ≡ false → fl.gt b c ≡ false → fl.gt a c ≡ false
  pub ge_not_lt : (a b : F) → fl.ge a b ≡ not (fl.gt b a)
