-- ===== src/Common/Int.antt =====
-- Signed integers over the native numbers, under the library's names (its ℤ stands on the unary ℕ),
-- and the wrap-around of Go's `int64`.
use Prim.Native.Nat.{ℕ, suc, ◌+◌, ◌-◌, ◌*◌, ◌/◌, ◌%◌, ◌≤◌, ◌<◌}
use mathlib.Core.Path.{◌≡◌}
use mathlib.Core.Bool.{Bool, true}
use mathlib.Core.Logic.{◌↔◌}
use native.Mathlib.Nat.{div-le_self}
use native.Mathlib.Omega.{arith}
use slide_sdk.Common.Tests.{ltb, leb, ◌==◌, if◌then◌else◌}

-- `negsuc n` is -(n + 1).
pub data ℤ : Type 0 where
  pos : ℕ → ℤ
  negsuc : ℕ → ℤ

abbrev pub pos_part : ℤ → ℕ
pos_part (pos n) = n
pos_part (negsuc n) = 0

abbrev pub neg_part : ℤ → ℕ
neg_part (pos n) = 0
neg_part (negsuc n) = suc n

-- a - b, as an integer.
abbrev pub sub_ℕ : ℕ → ℕ → ℤ
sub_ℕ a b = if leb b a then pos (a - b) else negsuc (b - a - 1)

infixl 65 ◌+ℤ◌ ◌-ℤ◌
infix 50 ◌≤ℤ◌ ◌<ℤ◌
unfoldable pub ◌+ℤ◌ : ℤ → ℤ → ℤ
a +ℤ b = sub_ℕ (pos_part a + pos_part b) (neg_part a + neg_part b)

unfoldable pub ◌-ℤ◌ : ℤ → ℤ → ℤ
a -ℤ b = sub_ℕ (pos_part a + neg_part b) (neg_part a + pos_part b)

abbrev pub ◌≤ℤ◌ : ℤ → ℤ → Type 0
a ≤ℤ b = pos_part a + neg_part b ≤ pos_part b + neg_part a

abbrev pub ◌<ℤ◌ : ℤ → ℤ → Type 0
a <ℤ b = pos_part a + neg_part b < pos_part b + neg_part a

-- The Boolean tests `<`, `<=` and `==` of the source.
abbrev pub ltb_ℤ : ℤ → ℤ → Bool
ltb_ℤ a b = ltb (pos_part a + neg_part b) (pos_part b + neg_part a)

abbrev pub leb_ℤ : ℤ → ℤ → Bool
leb_ℤ a b = leb (pos_part a + neg_part b) (pos_part b + neg_part a)

abbrev pub eqb_ℤ : ℤ → ℤ → Bool
eqb_ℤ a b = (pos_part a + neg_part b) == (pos_part b + neg_part a)

pub eqb_ℤ_iff : (a b : ℤ) → (eqb_ℤ a b ≡ true) ↔ (a ≡ b)
eqb_ℤ_iff a b = ((λ h. ground arith), (λ h. ground arith))

-- One lemma for each operation lets `omega` work with the operations shut, at any depth.
pub +ℤ_parts :
    (a b : ℤ)
    → pos_part (a +ℤ b) + neg_part a + neg_part b ≡ neg_part (a +ℤ b) + pos_part a + pos_part b
unfolding ◌+ℤ◌
+ℤ_parts a b = ground arith

pub -ℤ_parts :
    (a b : ℤ)
    → pos_part (a -ℤ b) + neg_part a + pos_part b ≡ neg_part (a -ℤ b) + pos_part a + neg_part b
unfolding ◌-ℤ◌
-ℤ_parts a b = ground arith

pub eq_of_parts : (a b : ℤ) → pos_part a + neg_part b ≡ pos_part b + neg_part a → a ≡ b
eq_of_parts a b h = ground arith

pub ruleset int_laws = (arith, +ℤ_parts, -ℤ_parts, eq_of_parts)

-- 2 ^ 63 and 2 ^ 64.
abbrev pub int64_limit : ℕ
int64_limit = 9223372036854775808

abbrev pub uint64_modulus : ℕ
uint64_modulus = 18446744073709551616

-- The bit pattern of an integer, and the conversion `uint64(a)`.
unfoldable pub to_uint64 : ℤ → ℕ
to_uint64 (pos n) = n % uint64_modulus
to_uint64 (negsuc n) = uint64_modulus - 1 - n % uint64_modulus

-- The conversion `int64(n)` of a `uint64`.
unfoldable pub to_int64 : ℕ → ℤ
to_int64 n =
    if ltb (n % uint64_modulus) int64_limit
    then pos (n % uint64_modulus)
    else negsuc (uint64_modulus - 1 - n % uint64_modulus)

-- `int64` addition and subtraction, which wrap around.
unfoldable pub add_int64 : ℤ → ℤ → ℤ
add_int64 a b = to_int64 (to_uint64 (a +ℤ b))

unfoldable pub sub_int64 : ℤ → ℤ → ℤ
sub_int64 a b = to_int64 (to_uint64 (a -ℤ b))

abbrev pub InInt64 : ℤ → Type 0
InInt64 a = (pos_part a < int64_limit) × (neg_part a ≤ int64_limit)

pub int64_round_trip : (a : ℤ) → InInt64 a → to_int64 (to_uint64 a) ≡ a
unfolding to_uint64 to_int64
int64_round_trip (pos n) h = ground arith
int64_round_trip (negsuc n) h = ground arith

-- The product, and the quotient that rounds towards zero.
abbrev pub magnitude : ℤ → ℕ
magnitude (pos n) = n
magnitude (negsuc n) = suc n

abbrev pub with_sign : ℤ → ℤ → ℕ → ℤ
with_sign (pos _) (pos _) n = pos n
with_sign (pos _) (negsuc _) n = sub_ℕ 0 n
with_sign (negsuc _) (pos _) n = sub_ℕ 0 n
with_sign (negsuc _) (negsuc _) n = pos n

unfoldable pub mul_int64 : ℤ → ℤ → ℤ
mul_int64 a b = to_int64 (to_uint64 (with_sign a b (magnitude a * magnitude b)))

-- `int64` division by another number than 0
unfoldable pub quot_int64 : ℤ → ℤ → ℤ
quot_int64 a b = to_int64 (to_uint64 (with_sign a b (magnitude a / magnitude b)))

-- Where nothing wraps around, the operations are those on natural numbers.
pub add_int64_pos : (a b : ℕ) → a + b < int64_limit → add_int64 (pos a) (pos b) ≡ pos (a + b)
unfolding add_int64 to_int64 to_uint64 ◌+ℤ◌
add_int64_pos a b h = ground arith

pub sub_int64_pos : (a b : ℕ) → a < int64_limit → b ≤ a → sub_int64 (pos a) (pos b) ≡ pos (a - b)
unfolding sub_int64 to_int64 to_uint64 ◌-ℤ◌
sub_int64_pos a b h l = ground arith

pub mul_int64_pos : (a b : ℕ) → a * b < int64_limit → mul_int64 (pos a) (pos b) ≡ pos (a * b)
unfolding mul_int64
mul_int64_pos a b h = int64_round_trip (pos (a * b)) (h, ground arith)

pub quot_int64_pos : (a b : ℕ) → a < int64_limit → quot_int64 (pos a) (pos b) ≡ pos (a / b)
unfolding quot_int64
quot_int64_pos a b h =
    let small = div-le_self a b in
    int64_round_trip (pos (a / b)) (omega (arith, small), ground arith)
