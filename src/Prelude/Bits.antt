-- ===== src/Prelude/Bits.antt =====
-- Packing numbers into bit fields: a bitwise or of disjoint fields adds them, and a mask of ones
-- takes a remainder.
use Prim.Native.Nat.{
  ℕ, zero, suc, ◌+◌, ◌-◌, ◌*◌, ◌/◌, ◌%◌, ◌^◌, ◌≤◌, ◌<◌, min, max, bit_and, bit_or, digits,
  bit_and-bitwise, bit_or-bitwise,
}
use mathlib.Core.Path.{◌≡◌, refl, ◌∙◌, sym, ap}
use native.Mathlib.Omega.{arith, pow_step}
use native.Mathlib.Nat.{
  mul_assoc, mul_comm, mul_right_comm, mul-add-div_right, div-eq_of_lt, mul-le-mul_right,
  mul-add-mod_self_left, mod-eq_of_lt, div-add-mod, mod-lt,
}

-- The count of digits to go does not matter while there are enough.
or_enough : (n m a b : ℕ) → a ≤ n → a ≤ m → digits (λ y. y) max n a b ≡ digits (λ y. y) max m a b
or_enough zero zero a b p q = refl
or_enough zero (suc m) zero b p q = refl
or_enough (suc n) zero zero b p q = refl
or_enough (suc n) (suc m) zero b p q = refl
or_enough zero m (suc a) b p q = absurd (omega arith)
or_enough (suc n) zero (suc a) b p q = absurd (omega arith)
or_enough (suc n) (suc m) (suc a) b p q =
    ap (λ h. h * 2 + max (suc a % 2) (b % 2))
      (or_enough n m (suc a / 2) (b / 2) (omega arith) (omega arith))

or_halves : (a b : ℕ) → bit_or a b ≡ bit_or (a / 2) (b / 2) * 2 + max (a % 2) (b % 2)
or_halves zero b = bit_or-bitwise 0 b ∙ (omega (arith, bit_or-bitwise 0 (b / 2)))
or_halves (suc a) b =
    bit_or-bitwise (suc a) b
    ∙ ap (λ h. h * 2 + max (suc a % 2) (b % 2))
        (or_enough a (suc a / 2) (suc a / 2) (b / 2) (omega arith) (omega arith)
          ∙ sym (bit_or-bitwise (suc a / 2) (b / 2)))

and_enough :
    (n m a b : ℕ) → a ≤ n → a ≤ m → digits (λ y. zero) min n a b ≡ digits (λ y. zero) min m a b
and_enough zero zero a b p q = refl
and_enough zero (suc m) zero b p q = refl
and_enough (suc n) zero zero b p q = refl
and_enough (suc n) (suc m) zero b p q = refl
and_enough zero m (suc a) b p q = absurd (omega arith)
and_enough (suc n) zero (suc a) b p q = absurd (omega arith)
and_enough (suc n) (suc m) (suc a) b p q =
    ap (λ h. h * 2 + min (suc a % 2) (b % 2))
      (and_enough n m (suc a / 2) (b / 2) (omega arith) (omega arith))

and_halves : (a b : ℕ) → bit_and a b ≡ bit_and (a / 2) (b / 2) * 2 + min (a % 2) (b % 2)
and_halves zero b = bit_and-bitwise 0 b ∙ (omega (arith, bit_and-bitwise 0 (b / 2)))
and_halves (suc a) b =
    bit_and-bitwise (suc a) b
    ∙ ap (λ h. h * 2 + min (suc a % 2) (b % 2))
        (and_enough a (suc a / 2) (suc a / 2) (b / 2) (omega arith) (omega arith)
          ∙ sym (bit_and-bitwise (suc a / 2) (b / 2)))

none_left : (a : ℕ) → a ≤ 0 → a ≡ 0
none_left a h = omega (arith, h)

or_nothing_below : (n a : ℕ) → a ≤ n → bit_or a 0 ≡ a
or_nothing_below zero a h = rw (none_left a h)
or_nothing_below (suc n) a h =
    omega (arith, or_halves a 0, or_nothing_below n (a / 2) (omega arith))

pub or_nothing : (a : ℕ) → bit_or a 0 ≡ a
or_nothing a = or_nothing_below a a (omega arith)

double : (k : ℕ) → 2 ^ suc k ≡ 2 ^ k * 2
double k = omega (arith, pow_step 2 k)

pub power-pos : (k : ℕ) → 0 < 2 ^ k
power-pos zero = omega arith
power-pos (suc k) = omega (arith, double k, power-pos k)

half_of : (x : ℕ) → x * 2 / 2 ≡ x
half_of x = omega arith

half_mask : (k : ℕ) → (2 ^ suc k - 1) / 2 ≡ 2 ^ k - 1
half_mask k = omega (arith, double k, power-pos k)

low_mask : (k : ℕ) → (2 ^ suc k - 1) % 2 ≡ 1
low_mask k = omega (arith, double k, power-pos k)

-- A field above the lower `k` bits.
pub bit_or-shifted : (k a b : ℕ) → b < 2 ^ k → bit_or (a * 2 ^ k) b ≡ a * 2 ^ k + b
bit_or-shifted zero a b h = rw (none_left b (omega (arith, h))) (omega (arith, or_nothing (a * 1)))
bit_or-shifted (suc k) a b h =
    rw (double k, sym (mul_assoc a (2 ^ k) 2), or_halves (a * 2 ^ k * 2) b, half_of (a * 2 ^ k))
      (omega (arith, bit_or-shifted k a (b / 2) (omega (arith, h, double k))))

rejoin : (p a : ℕ) → p * 2 * (a / 2 / p) + (a / 2 % p * 2 + a % 2) ≡ a
rejoin p a = omega (arith, mul_right_comm p 2 (a / 2 / p), div-add-mod (a / 2) p)

mod_double : (p a : ℕ) → 0 < p → a / 2 % p * 2 + a % 2 ≡ a % (p * 2)
mod_double p a h =
    sym (mod-eq_of_lt (omega (arith, mod-lt (a / 2) h)))
    ∙ sym (mul-add-mod_self_left (p * 2) (a / 2 / p) (a / 2 % p * 2 + a % 2))
    ∙ ap (λ x. x % (p * 2)) (rejoin p a)

pub bit_and-mask : (k a : ℕ) → bit_and (2 ^ k - 1) a ≡ a % 2 ^ k
bit_and-mask zero a = omega (arith, bit_and-bitwise 0 a)
bit_and-mask (suc k) a =
    rw (and_halves (2 ^ suc k - 1) a, half_mask k, low_mask k, bit_and-mask k (a / 2), double k)
      (omega (arith, mod_double (2 ^ k) a (power-pos k)))

and_nothing_below : (n a : ℕ) → a ≤ n → bit_and a 0 ≡ 0
and_nothing_below zero a h = rw (none_left a h)
and_nothing_below (suc n) a h =
    omega (arith, and_halves a 0, and_nothing_below n (a / 2) (omega arith))

-- The mask may stand on either side.
pub bit_and-mask_right : (k a : ℕ) → bit_and a (2 ^ k - 1) ≡ a % 2 ^ k
bit_and-mask_right zero a = omega (arith, and_nothing_below a a (omega arith))
bit_and-mask_right (suc k) a =
    rw
      (
        and_halves a (2 ^ suc k - 1),
        half_mask k,
        low_mask k,
        bit_and-mask_right k (a / 2),
        double k,
      )
      (omega (arith, mod_double (2 ^ k) a (power-pos k)))

-- The two fields of a word are read by division and remainder.
pub high_field : (k a b : ℕ) → b < 2 ^ k → (a * 2 ^ k + b) / 2 ^ k ≡ a
high_field k a b h = mul-add-div_right (power-pos k) a b ∙ omega (arith, div-eq_of_lt h)

pub low_field : (k a b : ℕ) → b < 2 ^ k → (a * 2 ^ k + b) % 2 ^ k ≡ b
low_field k a b h = rw (mul_comm a (2 ^ k)) (mul-add-mod_self_left (2 ^ k) a b ∙ mod-eq_of_lt h)

suc-mul : (a p : ℕ) → suc a * p ≡ a * p + p
suc-mul a p = omega (arith, mul_comm (suc a) p, mul_comm a p)

suc-add : (j k : ℕ) → suc j + k ≡ suc (j + k)
suc-add j k = omega arith

-- A word of two fields stays below the word of the width of both.
pub fields-lt : (j k a b : ℕ) → a < 2 ^ j → b < 2 ^ k → a * 2 ^ k + b < 2 ^ j * 2 ^ k
fields-lt j k a b g h = omega (arith, h, mul-le-mul_right (2 ^ k) g, suc-mul a (2 ^ k))

zero-add : (k : ℕ) → 0 + k ≡ k
zero-add k = omega arith

pub power-add : (j k : ℕ) → 2 ^ (j + k) ≡ 2 ^ j * 2 ^ k
power-add zero k = rw (zero-add k) (omega arith)
power-add (suc j) k =
    rw (suc-add j k, double (j + k), double j, power-add j k) (mul_right_comm (2 ^ j) (2 ^ k) 2)
