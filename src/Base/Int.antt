-- ===== src/Base/Int.antt =====
-- Signed results. The library's ℤ stands on the unary numbers; this one is over the native ones.
use Prim.Native.Nat.{ℕ, ◌-◌, ◌%◌, ◌^◌}
use mathlib.Core.Bool.{Bool}
use server_unit.Base.Tests.{ltb, if◌then◌else◌}

-- `negsuc n` is -(n + 1).
pub data ℤ : Type 0 where
  pos : ℕ → ℤ
  negsuc : ℕ → ℤ

-- A 64-bit unsigned value stored in an `int`.
unfoldable pub int_of_size_t : ℕ → ℤ
int_of_size_t x =
    let low = x % 2 ^ 32 in if ltb low (2 ^ 31) then pos low else negsuc (2 ^ 32 - low - 1)

-- `a > b` on `int`.
abbrev pub gtb_ℤ : ℤ → ℤ → Bool
gtb_ℤ (pos a) (pos b) = ltb b a
gtb_ℤ (pos a) (negsuc b) = Bool.true
gtb_ℤ (negsuc a) (pos b) = Bool.false
gtb_ℤ (negsuc a) (negsuc b) = ltb a b
