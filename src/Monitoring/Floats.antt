-- ===== src/Monitoring/Floats.antt =====
-- What monitoring does with a `float64`, and with packages math, sort and fmt: a record of operations over a type that
-- the model's user gives.
use distributed_caching_syst.Prelude.{ℕ, suc, ◌≡◌, Bool, false, List}
use distributed_caching_syst.Prelude.Int.{ℤ, pos}
use distributed_caching_syst.GoString.{Bytes}

pub record Floats (F : Type 0) : Type 0 where
  pub add : F → F → F
  pub sub : F → F → F
  pub mul : F → F → F
  pub div : F → F → F
  pub lt : F → F → Bool
  pub abs : F → F
  pub sqrt : F → F
  -- `float64(n)` of an int, and `n / 10^k` for a decimal literal
  pub of_int : ℤ → F
  pub decimal : ℕ → ℕ → F
  -- `int64(x)` as a bit pattern, and `int(math.Floor(x))`, `int(math.Ceil(x))` of numbers that are not negative
  pub to_int64 : F → ℕ
  pub floor : F → ℕ
  pub ceil : F → ℕ
  -- `Duration.Seconds`, `Duration.Hours` and `Duration.Minutes` of nanoseconds
  pub seconds : ℤ → F
  pub hours : ℤ → F
  pub minutes : ℤ → F
  pub max_float : F
  pub sort_floats : List F → List F
  pub sprintf : Bytes → List F → Bytes

-- What IEEE 754 says of the positive zero, where it is about QPS; `0 / 0` and `0 / -1` are not zero there.
pub record ZeroLaws {F : Type 0} (f : Floats F) (zero : F) : Type 0 where
  pub sub_zero : f.sub zero zero ≡ zero
  pub add_zero : f.add zero zero ≡ zero
  pub mul_zero : f.mul zero zero ≡ zero
  pub div_zero : (n : ℕ) → f.div zero (f.of_int (pos (suc n))) ≡ zero
  pub sqrt_zero : f.sqrt zero ≡ zero
  pub lt_zero : f.lt zero zero ≡ false
