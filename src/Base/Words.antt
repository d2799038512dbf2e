-- ===== src/Base/Words.antt =====
-- Unsigned words and their bytes in memory, lowest byte first.
use Prim.Native.Nat.{ℕ, ◌+◌, ◌*◌, ◌/◌, ◌%◌, ◌^◌, ◌<◌}
use mathlib.Core.Path.{◌≡◌}
use mathlib.Core.List.{List, [], ◌∷◌}
use native.Mathlib.Omega.{arith}

abbrev pub u8 : ℕ → ℕ
u8 n = n % 2 ^ 8

abbrev pub u16 : ℕ → ℕ
u16 n = n % 2 ^ 16

abbrev pub u32 : ℕ → ℕ
u32 n = n % 2 ^ 32

abbrev pub u64 : ℕ → ℕ
u64 n = n % 2 ^ 64

abbrev pub le2 : ℕ → List ℕ
le2 n = n % 256 ∷ n / 256 % 256 ∷ []

abbrev pub le4 : ℕ → List ℕ
le4 n = n % 256 ∷ n / 256 % 256 ∷ n / 65536 % 256 ∷ n / 16777216 % 256 ∷ []

abbrev pub of_le : List ℕ → ℕ
of_le [] = 0
of_le (b ∷ []) = b
of_le (b ∷ c ∷ bs) = b + 256 * of_le (c ∷ bs)

pub of_le-le2 : (n : ℕ) → n < 2 ^ 16 → of_le (le2 n) ≡ n
of_le-le2 n h = omega arith

pub of_le-le4 : (n : ℕ) → n < 2 ^ 32 → of_le (le4 n) ≡ n
of_le-le4 n h = omega arith
