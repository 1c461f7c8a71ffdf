-- ===== src/Common/Double.antt =====
-- The arithmetic of JavaScript's numbers, for the steps whose result depends on it: a double is a
-- fraction, and each operation rounds its exact result to 53 binary digits. Infinities, NaN and
-- numbers too small for a full mantissa are left out: amounts of money are not near them.
use Prim.Native.Nat.{ℕ, zero, suc, ◌+◌, ◌-◌, ◌*◌, ◌/◌, ◌%◌, ◌^◌, ◌≤◌, ◌<◌}
use mathlib.Core.Path.{◌≡◌, refl}
use native.Mathlib.Omega.{arith}
use merchandising_funnel_aut.Common.Tests.{ltb, ◌==◌, if◌then◌else◌}
use merchandising_funnel_aut.Common.Int.{
  ℤ, pos, negsuc, pos_part, neg, ◌+ℤ◌, ◌-ℤ◌, ◌*ℤ◌, floor_div, round_div,
}

-- The value numerator / denominator.
pub record Double : Type 0 where
  pub numerator : ℤ
  pub denominator : ℕ

-- The binary digits of a number; as much fuel as the number itself is enough.
unfoldable pub digits_in : ℕ → ℕ → ℕ
digits_in fuel zero = 0
digits_in zero (suc m) = 0
digits_in (suc fuel) (suc m) = suc (digits_in fuel (suc m / 2))

unfoldable pub digits : ℕ → ℕ
unfolding digits_in
digits n = digits_in n n

-- The whole number nearest to n / d, and the even one in the middle.
unfoldable pub nearest : ℕ → ℕ → ℕ
nearest n d =
    let rest = 2 * (n % d) in
    if ltb rest d
    then n / d
    else (if ltb d rest then suc (n / d) else (if (n / d) % 2 == 0 then n / d else suc (n / d)))

-- n / d to 53 digits: n * 2 ^ scale / d has more than that, and the excess is rounded off.
unfoldable pub to_53_digits : ℕ → ℕ → ℕ × ℕ
unfolding digits nearest
to_53_digits n d =
    let scale = 53 + digits d in
    let excess = digits (n * 2 ^ scale / d) - 53 in
    (nearest (n * 2 ^ scale) (d * 2 ^ excess) * 2 ^ excess, 2 ^ scale)

-- The double nearest to a / d.
unfoldable pub double_of : ℤ → ℕ → Double
unfolding to_53_digits
double_of (pos n) d = let r = to_53_digits n d in record { numerator = pos r.0; denominator = r.1 }
double_of (negsuc n) d =
    let r = to_53_digits (suc n) d in record { numerator = neg (pos r.0); denominator = r.1 }

-- The double that stands for an integer, and for an amount in cents or a percentage in hundredths.
abbrev pub number : ℤ → Double
number a = double_of a 1

abbrev pub hundredths : ℤ → Double
hundredths a = double_of a 100

infixl 65 ◌+d◌ ◌-d◌
infixl 70 ◌*d◌ ◌/d◌
abbrev pub ◌+d◌ : Double → Double → Double
x +d y =
    double_of (x.numerator *ℤ pos y.denominator +ℤ y.numerator *ℤ pos x.denominator)
      (x.denominator * y.denominator)

abbrev pub ◌-d◌ : Double → Double → Double
x -d y =
    double_of (x.numerator *ℤ pos y.denominator -ℤ y.numerator *ℤ pos x.denominator)
      (x.denominator * y.denominator)

abbrev pub ◌*d◌ : Double → Double → Double
x *d y = double_of (x.numerator *ℤ y.numerator) (x.denominator * y.denominator)

-- Division by a positive number.
abbrev pub ◌/d◌ : Double → Double → Double
x /d y = double_of (x.numerator *ℤ pos y.denominator) (x.denominator * pos_part y.numerator)

-- `Math.round`
abbrev pub round : Double → ℤ
round x = round_div x.numerator x.denominator

-- `Math.ceil` of a number that is not negative.
abbrev pub ceil : Double → ℕ
ceil x = (pos_part x.numerator + (x.denominator - 1)) / x.denominator

-- The cents of `round2(x)`, which is `Math.round(x * 100) / 100`.
abbrev pub round2 : Double → ℤ
round2 x = round (x *d number (pos 100))

-- Fuel of the number's own size is never used up: the number has no more digits than that.
pub digits_in-enough : (fuel n : ℕ) → n ≤ fuel → n < 2 ^ digits_in fuel n
unfolding digits_in
digits_in-enough zero zero h = omega arith
digits_in-enough (suc fuel) zero h = omega arith
digits_in-enough zero (suc m) h = absurd (omega arith)
digits_in-enough (suc fuel) (suc m) h =
    let half : suc m / 2 < 2 ^ digits_in fuel (suc m / 2) =
      digits_in-enough fuel (suc m / 2) (omega arith) in
    let twice : 2 ^ suc (digits_in fuel (suc m / 2)) ≡ 2 * 2 ^ digits_in fuel (suc m / 2) =
      grind arith in
    omega arith

-- Half of 1.15 is a little less than 57.5 cents.
half_a_cent : round2 (hundredths (pos 115) *d (hundredths (pos 5000) /d number (pos 100))) ≡ pos 57
unfolding double_of to_53_digits digits digits_in nearest round_div floor_div ◌+ℤ◌ ◌*ℤ◌ neg
half_a_cent = refl
