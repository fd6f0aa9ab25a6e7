-- ===== src/Double.antt =====
-- The type `double` is a parameter: the operations that the server uses, and what holds of them.
-- Two values that are not NaN can be ordered.
use server_unit.Base.{◌≡◌, ◌⊎◌, ◌&&◌, Bool, true, false}
use server_unit.Base.Int.{ℤ}

pub record DoubleLib : Type 1 where
  pub Double : Type 0
  pub zero_double : Double
  pub add : Double → Double → Double
  -- A product and a quotient with an `int`.
  pub mul_int : Double → ℤ → Double
  pub div_int : Double → ℤ → Double
  -- The test of a `double` as a condition, `<=` and `==`.
  pub is_nonzero : Double → Bool
  pub leq : Double → Double → Bool
  pub eq : Double → Double → Bool
  pub is_nan : Double → Bool
  pub leq_total :
      (a b : Double) → is_nan a ≡ false → is_nan b ≡ false → (leq a b ≡ true) ⊎ (leq b a ≡ true)
  pub leq_trans : (a b c : Double) → leq a b ≡ true → leq b c ≡ true → leq a c ≡ true
  pub eq_lem : (a b : Double) → eq a b ≡ (leq a b && leq b a)
