-- ===== src/Base/Decimal.antt =====
-- Integers in decimal: `strconv.FormatInt(n, 10)` and the verb %d.
use Prim.Native.Nat.{ℕ, zero, suc, ◌+◌, ◌/◌, ◌%◌, ◌≤◌, ◌<◌}
use mathlib.Core.Logic.{inl, inr}
use mathlib.Core.List.{[], ◌∷◌, ◌++◌}
use native.Mathlib.Omega.{arith}
use shcr.Base.Tests.{ltb, if◌then◌else◌, Bool-cases}
use shcr.Base.Lists.{length, length-append}
use shcr.Base.Bytes.{Bytes}
use shcr.Base.Int.{ℤ, pos, negsuc}

-- `rounds` is at least the number of digits.
unfoldable pub digits : ℕ → ℕ → Bytes
digits zero n = []
digits (suc rounds) n =
    let front = digits rounds (n / 10) in
    if ltb n 10 then (b'0' + n) ∷ [] else front ++ (b'0' + n % 10) ∷ []

unfoldable pub format_nat : ℕ → Bytes
unfolding digits
format_nat n = digits (suc n) n

unfoldable pub format_int : ℤ → Bytes
unfolding format_nat
format_int (pos n) = format_nat n
format_int (negsuc n) = b'-' ∷ format_nat (suc n)

digits_below_10 : (rounds n : ℕ) → n < 10 → length (digits rounds n) ≤ 1
unfolding digits
digits_below_10 zero n h = omega arith
digits_below_10 (suc rounds) n h = ground arith

digits_below_100 : (rounds n : ℕ) → n < 100 → length (digits rounds n) ≤ 2
unfolding digits
digits_below_100 zero n h = omega arith
digits_below_100 (suc rounds) n h = elim (Bool-cases (ltb n 10)) [
  | inl one ↦ rw one (omega arith)
  | inr two ↦ rw two (
      omega (
        arith,
        digits_below_10 rounds (n / 10) (omega arith),
        length-append (digits rounds (n / 10)) ((b'0' + n % 10) ∷ []),
      ))
]

-- A number below 100 has at most two digits.
pub length-format_nat : (n : ℕ) → n < 100 → length (format_nat n) ≤ 2
unfolding format_nat
length-format_nat n h = digits_below_100 (suc n) n h
