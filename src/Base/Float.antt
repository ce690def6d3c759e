-- ===== src/Base/Float.antt =====
-- Go's float64, as far as the retry policy computes with it: a finite number is an integer over a power
-- of 2, and a result is rounded to 53 significant bits, to the nearest and to even in the middle.
use Prim.Native.Nat.{ℕ, zero, suc, ◌+◌, ◌*◌, ◌/◌, ◌%◌, ◌^◌}
use mathlib.Core.Bool.{◌&&◌, ◌||◌}
use pulsar_notifcation_pipel.Base.Int.{ℤ, pos, negsuc, sub_ℕ}
use pulsar_notifcation_pipel.Base.Tests.{◌==◌, ltb, if◌then◌else◌}

-- numerator / 2 ^ scale
pub record Float64 : Type 0 where
  pub numerator : ℤ
  pub scale : ℕ

-- The unit in the last place: the least power of 2 that leaves 53 bits, looked for among so many.
unfoldable pub unit_in_last : (rounds : ℕ) → ℕ → ℕ
unit_in_last zero n = 1
unit_in_last (suc rounds) n =
    let more = unit_in_last rounds (n / 2) in if ltb n (2 ^ 53) then 1 else 2 * more

-- The multiple of a unit that is nearest, an even one in the middle.
unfoldable pub nearest_multiple : (unit : ℕ) → ℕ → ℕ
nearest_multiple unit n =
    let q = n / unit in
    let twice = n % unit * 2 in
    if ltb unit twice || (twice == unit && q % 2 == 1) then (q + 1) * unit else q * unit

-- The largest float64 has 1024 bits before the point, and a product with an int64 63 more.
unfoldable pub nearest : ℕ → ℕ
nearest n = nearest_multiple (unit_in_last 1_088 n) n

-- The integer with this absolute value and the sign of the first one.
abbrev with_sign : ℤ → ℕ → ℤ
with_sign (pos n) m = pos m
with_sign (negsuc n) m = sub_ℕ 0 m

abbrev magnitude : ℤ → ℕ
magnitude (pos n) = n
magnitude (negsuc n) = suc n

abbrev product : ℤ → ℤ → ℤ
product a (pos n) = with_sign a (magnitude a * n)
product (pos m) (negsuc n) = sub_ℕ 0 (m * suc n)
product (negsuc m) (negsuc n) = pos (suc m * suc n)

-- float64(d)
unfoldable pub float64 : ℤ → Float64
float64 d = record { numerator = with_sign d (nearest (magnitude d)); scale = 0 }

-- x * y
unfoldable pub multiply : Float64 → Float64 → Float64
multiply x y =
    let n = product x.numerator y.numerator in
    record { numerator = with_sign n (nearest (magnitude n)); scale = x.scale + y.scale }

-- int64(x), which drops the fraction; what it is outside of int64 the language leaves open.
unfoldable pub int64 : Float64 → ℤ
int64 x = with_sign x.numerator (magnitude x.numerator / 2 ^ x.scale)
