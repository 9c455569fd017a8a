-- ===== src/Prelude/Int64.antt =====
-- Go's int64: an integer in [-2^63, 2^63), with sums and differences wrapped around.
use challenge_senior.Prelude.Tests.{ltb, if◌then◌else◌}
use challenge_senior.Prelude.Int.{
  ℤ, pos, negsuc, pos_part, neg_part, ◌+ℤ◌, ◌-ℤ◌, ◌≤ℤ◌, ◌<ℤ◌, -ℤ_parts,
}
use Prim.Native.Nat.{◌-◌, ◌%◌, ◌^◌, ◌≤◌, ◌<◌}
use mathlib.Core.Path.{◌≡◌}
use native.Mathlib.Omega.{arith}

-- The int64 that has the same low 64 bits.
unfoldable pub wrap64 : ℤ → ℤ
wrap64 (pos n) =
    if ltb (n % 2 ^ 64) (2 ^ 63) then pos (n % 2 ^ 64) else negsuc (2 ^ 64 - n % 2 ^ 64 - 1)
wrap64 (negsuc n) =
    if ltb (n % 2 ^ 64) (2 ^ 63) then negsuc (n % 2 ^ 64) else pos (2 ^ 64 - n % 2 ^ 64 - 1)

-- `a + b` and `a - b` on int64.
unfoldable pub add64 : ℤ → ℤ → ℤ
add64 a b = wrap64 (a +ℤ b)

unfoldable pub sub64 : ℤ → ℤ → ℤ
sub64 a b = wrap64 (a -ℤ b)

abbrev pub IsInt64 : ℤ → Type 0
IsInt64 a = (pos_part a < 2 ^ 63) × (neg_part a ≤ 2 ^ 63)

pub wrap64-IsInt64 : (a : ℤ) → IsInt64 (wrap64 a)
unfolding wrap64
wrap64-IsInt64 (pos n) = ground arith
wrap64-IsInt64 (negsuc n) = ground arith

pub wrap64-eq : (a : ℤ) → IsInt64 a → wrap64 a ≡ a
unfolding wrap64
wrap64-eq (pos n) h = ground arith
wrap64-eq (negsuc n) h = ground arith

pub add64-IsInt64 : (a b : ℤ) → IsInt64 (add64 a b)
unfolding add64
add64-IsInt64 a b = wrap64-IsInt64 (a +ℤ b)

pub sub64-IsInt64 : (a b : ℤ) → IsInt64 (sub64 a b)
unfolding sub64
sub64-IsInt64 a b = wrap64-IsInt64 (a -ℤ b)

-- A sum or a difference that fits is exact.
pub add64-eq : (a b : ℤ) → IsInt64 (a +ℤ b) → add64 a b ≡ a +ℤ b
unfolding add64
add64-eq a b h = wrap64-eq (a +ℤ b) h

pub sub64-eq : (a b : ℤ) → IsInt64 (a -ℤ b) → sub64 a b ≡ a -ℤ b
unfolding sub64
sub64-eq a b h = wrap64-eq (a -ℤ b) h

-- Taking a positive amount from a balance that covers it is exact and not negative.
pub sub64_covered : (a b : ℤ) → IsInt64 a → IsInt64 b → pos 0 <ℤ b → b ≤ℤ a → sub64 a b ≡ a -ℤ b
sub64_covered a b ha hb hp hc = sub64-eq a b (omega (arith, -ℤ_parts a b, nonneg))
  where
    nonneg : neg_part (a -ℤ b) ≤ 0
    nonneg = unfold ◌-ℤ◌ in ground arith

-- Two positive integers whose sum is past the largest int64 wrap to a negative one.
pub add64_overflow : (a b : ℤ) → IsInt64 a → IsInt64 b → pos (2 ^ 63) ≤ℤ a +ℤ b → add64 a b <ℤ pos 0
unfolding add64 ◌+ℤ◌ wrap64
add64_overflow a b ha hb h = ground arith

-- Adding and taking away again gives the same int64.
pub sub64-add64 : (a b : ℤ) → IsInt64 a → IsInt64 b → sub64 (add64 a b) b ≡ a
unfolding add64 sub64 ◌+ℤ◌ ◌-ℤ◌ wrap64
sub64-add64 a b ha hb = ground arith

pub add64-sub64 : (a b : ℤ) → IsInt64 a → IsInt64 b → add64 (sub64 a b) b ≡ a
unfolding add64 sub64 ◌+ℤ◌ ◌-ℤ◌ wrap64
add64-sub64 a b ha hb = ground arith

-- Wrapping a running total at each step is wrapping it once.
pub add64-wrap64 : (a b : ℤ) → add64 (wrap64 a) b ≡ wrap64 (a +ℤ b)
unfolding add64 ◌+ℤ◌ wrap64
add64-wrap64 a b = ground arith

pub sub64-wrap64 : (a b : ℤ) → sub64 (wrap64 a) b ≡ wrap64 (a -ℤ b)
unfolding sub64 ◌-ℤ◌ wrap64
sub64-wrap64 a b = ground arith
