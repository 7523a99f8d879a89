-- ===== src/Base/Int.antt =====
-- The int32 fields as integers, with Go's `==` and `<`.
use Prim.Native.Nat.{ℕ, ◌-◌, ◌%◌, ◌^◌}
use mathlib.Core.Path.{◌≡◌}
use mathlib.Core.Bool.{Bool, true, false}
use native.Mathlib.Omega.{arith}
use shelly_operator.Base.Tests.{ltb, eqb, if◌then◌else◌}

-- `negsuc n` is -(n + 1).
pub data ℤ : Type 0 where
  pos : ℕ → ℤ
  negsuc : ℕ → ℤ

-- Go's conversion of an int to an int32: the 32 low bits, as a number in two's complement.
unfoldable pub of_low_bits : ℕ → ℤ
of_low_bits r = if ltb r (2 ^ 31) then pos r else negsuc (2 ^ 32 - 1 - r)

unfoldable pub int32 : ℤ → ℤ
unfolding of_low_bits
int32 (pos n) = of_low_bits (n % 2 ^ 32)
int32 (negsuc n) = of_low_bits (2 ^ 32 - 1 - n % 2 ^ 32)

unfoldable pub eqz : ℤ → ℤ → Bool
eqz (pos a) (pos b) = eqb a b
eqz (negsuc a) (negsuc b) = eqb a b
eqz (pos a) (negsuc b) = false
eqz (negsuc a) (pos b) = false

unfoldable pub ltz : ℤ → ℤ → Bool
ltz (pos a) (pos b) = ltb a b
ltz (negsuc a) (negsuc b) = ltb b a
ltz (pos a) (negsuc b) = false
ltz (negsuc a) (pos b) = true

pub eqz→eq : (a b : ℤ) → eqz a b ≡ true → a ≡ b
unfolding eqz
eqz→eq a b h = ground arith

pub eqz_refl : (a : ℤ) → eqz a a ≡ true
unfolding eqz
eqz_refl a = ground arith

pub ltz_asymm : (a b : ℤ) → ltz a b ≡ true → ltz b a ≡ false
unfolding ltz
ltz_asymm a b h = ground arith

pub ltz_connex : (a b : ℤ) → ltz a b ≡ false → ltz b a ≡ false → a ≡ b
unfolding ltz
ltz_connex a b h k = ground arith

pub ltz_cotrans : (a b c : ℤ) → ltz b a ≡ false → ltz c b ≡ false → ltz c a ≡ false
unfolding ltz
ltz_cotrans a b c h k = ground arith

pub eq→eqz : (a b : ℤ) → a ≡ b → eqz a b ≡ true
eq→eqz a b h = rw h (eqz_refl b)

pub eqz_comm : (a b : ℤ) → eqz a b ≡ eqz b a
unfolding eqz
eqz_comm a b = ground arith

pub ltz_irrefl : (a : ℤ) → ltz a a ≡ false
unfolding ltz
ltz_irrefl a = ground arith

pub ltz_trans : (a b c : ℤ) → ltz a b ≡ true → ltz b c ≡ true → ltz a c ≡ true
unfolding ltz
ltz_trans a b c h k = ground arith
