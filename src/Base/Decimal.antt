-- ===== src/Base/Decimal.antt =====
-- strconv.Itoa and the %d verb: decimal digits.
use Prim.Native.Nat.{ℕ, zero, suc, ◌+◌, ◌/◌, ◌%◌}
use mathlib.Core.List.{[], ◌∷◌}
use pulsar_notifcation_pipel.Base.Tests.{ltb, if◌then◌else◌}
use pulsar_notifcation_pipel.Base.GoString.{Text}
use pulsar_notifcation_pipel.Base.Int.{ℤ, pos, negsuc}

-- Digits in front of `acc`, with as many rounds as the number is long at most.
unfoldable pub digits_from : ℕ → ℕ → Text → Text
digits_from zero n acc = acc
digits_from (suc rounds) n acc =
    let more = digits_from rounds (n / 10) ((b'0' + n % 10) ∷ acc) in
    if ltb n 10 then (b'0' + n % 10) ∷ acc else more

unfoldable pub format_ℕ : ℕ → Text
unfolding digits_from
format_ℕ n = digits_from (suc n) n []

unfoldable pub itoa : ℤ → Text
unfolding format_ℕ
itoa (pos n) = format_ℕ n
itoa (negsuc n) = b'-' ∷ format_ℕ (suc n)
