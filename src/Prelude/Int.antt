-- ===== src/Prelude/Int.antt =====
-- The signed machine integers of the Go structs (int, int32, int64), over the native numbers.
use Prim.Native.Nat.{ℕ, zero, suc, ◌+◌, ◌-◌, ◌%◌}
use mathlib.Core.Path.{◌≡◌, ap}
use mathlib.Core.Bool.{Bool, true, false}
use hbase_k8s_operator.Prelude.Tests.{eqb, eqb_sound, ltb, if◌then◌else◌}

-- `negsuc n` is -(n + 1).
pub data ℤ : Type 0 where
  pos : ℕ → ℤ
  negsuc : ℕ → ℤ

-- x > 0
abbrev pub is_positive : ℤ → Bool
is_positive (pos zero) = false
is_positive (pos (suc n)) = true
is_positive (negsuc n) = false

-- x == y
abbrev pub eq_ℤ : ℤ → ℤ → Bool
eq_ℤ (pos a) (pos b) = eqb a b
eq_ℤ (negsuc a) (negsuc b) = eqb a b
eq_ℤ _ _ = false

-- How often `for index < x { index += 1 }` turns, from index 0.
abbrev pub rounds : ℤ → ℕ
rounds (pos n) = n
rounds (negsuc n) = zero

-- x + 1 for an int32, which wraps from 2147483647 to -2147483648.
abbrev pub next_int32 : ℤ → ℤ
next_int32 (pos n) = if eqb n 2147483647 then negsuc 2147483647 else pos (n + 1)
next_int32 (negsuc zero) = pos zero
next_int32 (negsuc (suc n)) = negsuc n

-- int32(x) of an int: the low 32 bits, in two's complement.
abbrev pub to_int32 : ℤ → ℤ
to_int32 (pos n) =
    let low = n % 4294967296 in if ltb low 2147483648 then pos low else negsuc (4294967295 - low)
to_int32 (negsuc n) =
    let low = n % 4294967296 in if ltb low 2147483648 then negsuc low else pos (4294967295 - low)

-- Integers that pass the test for equality are equal.
pub eq_ℤ_sound : (a b : ℤ) → eq_ℤ a b ≡ true → a ≡ b
eq_ℤ_sound (pos a) (pos b) h = ap pos (eqb_sound a b h)
eq_ℤ_sound (negsuc a) (negsuc b) h = ap negsuc (eqb_sound a b h)
eq_ℤ_sound (pos a) (negsuc b) h = cc
eq_ℤ_sound (negsuc a) (pos b) h = cc
