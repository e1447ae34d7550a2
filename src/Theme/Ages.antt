-- ===== src/Theme/Ages.antt =====
-- internal/theme/format.go, `Age`: the columns that an age takes.
use shcr.Base.{
  ℕ, ◌+◌, ◌-◌, ◌*◌, ◌/◌, ◌≤◌, ◌<◌, [], ◌∷◌, ◌++◌, ltb, leb, length, length-append, ◌≡◌, ◌⊎◌, inl,
  inr, arith, Bool-cases,
}
use shcr.Base.Int.{pos, negsuc, ◌-ℤ◌, ◌*ℤ◌, wrap64}
use shcr.Base.Decimal.{format_nat, length-format_nat}
use shcr.Theme.{nanoseconds, hour, minute, age_of, age}

-- 1 January 2070, in milliseconds, is later than a hundred years of 365 days behind 1970.
abbrev pub hundred_years : ℕ
hundred_years = 100 * 365 * 24 * 3600000

with_unit : (n : ℕ) (unit : ℕ) → n < 100 → length (format_nat n ++ unit ∷ []) ≤ 3
with_unit n unit h = omega (arith, length-append (format_nat n) (unit ∷ []), length-format_nat n h)

age_of-length : (n : ℕ) → n < hundred_years * 1000000 → length (age_of (pos n)) ≤ 3
unfolding age_of
age_of-length n h = elim (Bool-cases (ltb (n + 0) minute)) [
  | inl m ↦ rw m (omega arith)
  | inr m ↦ elim (Bool-cases (ltb (n + 0) hour)) [
    | inl k ↦ rw (m, k) (with_unit (n / minute) b'm' (ground arith))
    | inr k ↦ elim (Bool-cases (ltb (n + 0) (24 * hour))) [
      | inl d ↦ rw (m, k, d) (with_unit (n / hour) b'h' (ground arith))
      | inr d ↦ elim (Bool-cases (ltb (n + 0) (7 * (24 * hour)))) [
        | inl w ↦ rw (m, k, d, w) (with_unit (n / (24 * hour)) b'd' (ground arith))
        | inr w ↦ elim (Bool-cases (ltb (n + 0) (365 * (24 * hour)))) [
          | inl y ↦ rw (m, k, d, w, y) (with_unit (n / (7 * (24 * hour))) b'w' (ground arith))
          | inr y ↦ rw (m, k, d, w, y) (with_unit (n / (365 * (24 * hour))) b'y' (ground arith))
        ]
      ]
    ]
  ]
]

age_of-future : (n : ℕ) → length (age_of (negsuc n)) ≤ 3
unfolding age_of
age_of-future n = ground arith

-- The elapsed time of two instants within those years.
elapsed-cases :
    (now ts : ℕ)
    → now < hundred_years
    → ts < hundred_years
    → ((n : ℕ) × (nanoseconds (wrap64 (pos now -ℤ pos ts)) ≡ pos n) × (n < hundred_years * 1000000))
      ⊎ ((n : ℕ) × (nanoseconds (wrap64 (pos now -ℤ pos ts)) ≡ negsuc n))
unfolding ◌-ℤ◌ ◌*ℤ◌ wrap64
elapsed-cases now ts h k = elim (Bool-cases (leb ts now)) [
  | inl past ↦ inl ((now - ts) * 1000000, ground arith, ground arith)
  | inr future ↦ inr ((ts - now) * 1000000 - 1, ground arith)
]

-- The age of what started at a time after 1970 takes at most three columns, for a clock that shows a
-- time before 2070, and also if the time lies in the clock's future.
age-length :
    (ts now : ℕ) → ts < hundred_years → now < hundred_years → length (age (pos ts) (pos now)) ≤ 3
unfolding age
age-length ts now h k = elim (Bool-cases (leb (ts + 0) 0)) [
  | inl unset ↦ rw unset (omega arith)
  | inr set ↦ rw set (elim (elapsed-cases now ts k h) [
    | inl (n, past, bound) ↦ rw past (age_of-length n bound)
    | inr (n, future) ↦ rw future (age_of-future n)
  ])
]
