-- ===== src/Base/Int.antt =====
-- The C `int` where its sign matters: return codes and register values read over I2C.
use Prim.Native.Nat.{ℕ, ◌-◌, ◌%◌}

-- `negsuc n` is -(n + 1).
pub data ℤ : Type 0 where
  pos : ℕ → ℤ
  negsuc : ℕ → ℤ

-- The two codes that the functions of the program return.
abbrev pub success : ℤ
success = pos 0

abbrev pub failure : ℤ
failure = negsuc 0

-- An `int` assigned to an unsigned type of `m` values, `m` at least 1.
unfoldable pub wrap : (m : ℕ) → ℤ → ℕ
wrap m (pos n) = n % m
wrap m (negsuc n) = m - 1 - n % m
