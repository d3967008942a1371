-- ===== src/Prelude/Words.antt =====
-- Go's integers. A `uint8` and a `uint64` are numbers below their modulus; an `int64` is a `ℤ`.
use Prim.Native.Nat.{ℕ, ◌+◌, ◌-◌, ◌%◌, ◌<◌}
use mathlib.Core.Path.{◌≡◌}
use mathlib.Core.Bool.{Bool, true, false}
use native.Mathlib.Omega.{arith}
use native.Mathlib.Decide.{ℕ_discrete}
use arkade_poker.Prelude.Tests.{ltb, leb, ◌==◌, if◌then◌else◌}

abbrev pub u8 : ℕ → ℕ
u8 n = n % 256

abbrev pub u64_mod : ℕ
u64_mod = 18446744073709551616

abbrev pub max_uint64 : ℕ
max_uint64 = 18446744073709551615

-- `negsuc n` is -(n + 1).
pub data ℤ : Type 0 where
  pos : ℕ → ℤ
  negsuc : ℕ → ℤ

-- The `int64` with the bit pattern of a number.
abbrev pub int64 : ℕ → ℤ
int64 n =
    let m = n % 18446744073709551616 in
    if ltb m 9223372036854775808 then pos m else negsuc (18446744073709551616 - m - 1)

-- The `uint64` with the bit pattern of an `int64`.
abbrev pub uint64 : ℤ → ℕ
uint64 (pos n) = n % 18446744073709551616
uint64 (negsuc n) = (18446744073709551616 - 1 - n % 18446744073709551616)

-- `a - b` on two `int64`s
abbrev pub sub_int64 : ℤ → ℤ → ℤ
sub_int64 a b = int64 (uint64 a + (18446744073709551616 - uint64 b))

abbrev pub is_negative : ℤ → Bool
is_negative (pos _) = false
is_negative (negsuc _) = true

abbrev pub leb_ℤ : ℤ → ℤ → Bool
leb_ℤ (pos a) (pos b) = leb a b
leb_ℤ (pos a) (negsuc b) = false
leb_ℤ (negsuc a) (pos b) = true
leb_ℤ (negsuc a) (negsuc b) = leb b a

abbrev pub eqb_ℤ : ℤ → ℤ → Bool
eqb_ℤ (pos a) (pos b) = a == b
eqb_ℤ (pos a) (negsuc b) = false
eqb_ℤ (negsuc a) (pos b) = false
eqb_ℤ (negsuc a) (negsuc b) = a == b

-- An amount in range keeps its value as an `int64`.
pub int64-small : (n : ℕ) → n < 9223372036854775808 → int64 n ≡ pos n
int64-small n h = ground arith

pub ℤ_discrete : Discrete ℤ
ℤ_discrete = hlevel ℕ_discrete
