-- ===== src/Histfile/Window.antt =====
-- The times that `approximateUndated` gives to a run: they strictly increase, in milliseconds, and
-- stay before the entry behind the run.
use shcr.Base.{
  ℕ, ◌+◌, ◌-◌, ◌*◌, ◌/◌, ◌^◌, ◌<◌, ◌≤◌, true, false, Option, none, some, List, [], ◌∷◌, ◌⊎◌, length,
  ◌≡◌, refl, sym, ap, ◌∙◌, arith, inl, inr, Bool-cases, ltb, false≢true,
}
use shcr.Base.Int.{
  ℤ, pos, negsuc, pos_part, neg_part, ◌+ℤ◌, ◌-ℤ◌, ◌*ℤ◌, ◌≤ℤ◌, ◌<ℤ◌, quot_ℕ, ltb_ℤ, wrap64,
  wrap64-eq_self, eq_of_parts, int_laws,
}
use shcr.Histfile.Entries.{Entry}
use shcr.Histfile.Undated.{
  clamp_duration, millisecond, second, from_milli, unix_milli, sub_time, seconds_before, share,
  lower_of, run_window, date_run,
}

mul-div-le : (d n : ℕ) → (n + 1) * (d / (n + 1)) ≤ d
mul-div-le d n = grind arith

*ℤ_pos : (a b : ℕ) → pos a *ℤ pos b ≡ pos (a * b)
unfolding ◌*ℤ◌
*ℤ_pos a b = ground arith

clamp_duration_cases :
    (d : ℤ)
    → ((x : ℕ) × (clamp_duration d ≡ pos x) × (pos x ≤ℤ d) × (x < 2 ^ 63))
      ⊎ (clamp_duration d <ℤ pos 0)
unfolding clamp_duration
clamp_duration_cases (pos n) = elim (Bool-cases (ltb (2 ^ 63 - 1) n)) [
  | inl big ↦ inl (2 ^ 63 - 1, ground arith, ground arith, ground arith)
  | inr small ↦ inl (n, ground arith, ground arith, ground arith)
]
clamp_duration_cases (negsuc n) = inr (ground arith)

quot_neg : (d : ℤ) (m : ℕ) → d <ℤ pos 0 → ltb_ℤ (quot_ℕ d m) (pos millisecond) ≡ true
unfolding quot_ℕ
quot_neg (pos n) m h = absurd (omega arith)
quot_neg (negsuc n) m h = ground arith

-- A step of at least a millisecond divides the window.
share_fits :
    (upper lower : ℤ) (n : ℕ)
    → ltb_ℤ (share upper lower n) (pos millisecond) ≡ false
    → (s : ℕ) × (share upper lower n ≡ pos s)
      × (millisecond ≤ s)
      × (lower +ℤ pos ((n + 1) * s) ≤ℤ upper)
      × ((n + 1) * s < 2 ^ 63)
unfolding sub_time quot_ℕ
share_fits upper lower n h = elim (clamp_duration_cases (upper -ℤ lower)) [
  | inl (x, e, below, fits) ↦
      let divides = mul-div-le x n in
      (x / (n + 1), ground arith, ground arith, omega (int_laws, divides), ground arith)
  | inr minus ↦
      absurd (false≢true (sym h ∙ quot_neg (clamp_duration (upper -ℤ lower)) (n + 1) minus))
]

unix_milli_mono :
    (a b : ℤ)
    → a +ℤ pos millisecond ≤ℤ b
    → neg_part a < 2 ^ 82
    → pos_part b < 2 ^ 82
    → unix_milli a <ℤ unix_milli b
unfolding unix_milli ◌+ℤ◌ wrap64
unix_milli_mono (pos a) (pos b) h la lb = ground arith
unix_milli_mono (pos a) (negsuc b) h la lb = ground arith
unix_milli_mono (negsuc a) (pos b) h la lb = ground arith
unix_milli_mono (negsuc a) (negsuc b) h la lb = ground arith

-- A run fits its window: the step is at least a millisecond, and the run ends a step before the
-- entry behind it.
pub record Fits (upper lower : ℤ) (n s : ℕ) : Type 0 where
  pub enough : millisecond ≤ s
  pub before_upper : lower +ℤ pos ((n + 1) * s) ≤ℤ upper
  pub in_range : (n + 1) * s < 2 ^ 63

neg_seconds : (n : ℕ) → (pos 0 -ℤ pos (n + 1)) *ℤ pos second ≡ negsuc ((n + 1) * second - 1)
unfolding ◌*ℤ◌ ◌-ℤ◌
neg_seconds n = ground arith

fallback-Fits :
    (upper : ℤ) (n : ℕ) → (n + 1) * second < 2 ^ 63 → Fits upper (seconds_before upper n) n second
fallback-Fits upper n h =
    let exact = wrap64-eq_self (negsuc ((n + 1) * second - 1)) (omega arith) in
    record {
      enough = omega arith;
      before_upper = rw (neg_seconds, exact) (omega int_laws);
      in_range = h;
    }

-- The window of a run that starts below a number of seconds that fits a duration.
pub run_window-Fits :
    (prev : Option ℤ) (upper : ℤ) (n : ℕ)
    → (n + 1) * second < 2 ^ 63
    → (s : ℕ) × ((run_window prev upper n).1 ≡ pos s) × Fits upper (run_window prev upper n).0 n s
unfolding run_window
run_window-Fits prev upper n h =
    let lower = lower_of prev (seconds_before upper n) in
    elim (Bool-cases (ltb_ℤ (share upper lower n) (pos millisecond))) [
      | inl narrow ↦ rw narrow (second, refl, fallback-Fits upper n h)
      | inr wide ↦
          let (s, step, enough, before_upper, in_range) = share_fits upper lower n wide in
          rw wide
            (s, step, record { enough = enough; before_upper = before_upper; in_range = in_range })
    ]

-- Times that strictly increase, above one time and below another.
abbrev pub Rising : ℤ → ℤ → List Entry → Type 0
Rising low high [] = Unit
Rising low high (e ∷ es) =
    (low <ℤ e.start_time) × (e.start_time <ℤ high) × Rising e.start_time high es

-- The time of the entry at `k`, with nothing wrapped.
abbrev moment : ℤ → ℕ → ℕ → ℤ
moment lower s k = lower +ℤ pos (k * s)

pos_part_mono : (a b : ℤ) → a ≤ℤ b → pos_part a ≤ pos_part b
pos_part_mono (pos a) b h = ground arith
pos_part_mono (negsuc a) b h = ground arith

neg_part_mono : (a b : ℤ) → a ≤ℤ b → neg_part b ≤ neg_part a
neg_part_mono (pos a) b h = ground arith
neg_part_mono (negsuc a) b h = ground arith

step_room : (n s k : ℕ) → k + 1 ≤ n → (k + 1) * s + s ≤ (n + 1) * s
step_room n s k h = grind arith

step_exact :
    (n s k : ℕ)
    → k + 1 ≤ n
    → (n + 1) * s < 2 ^ 63
    → wrap64 (pos (k + 1) *ℤ pos s) ≡ pos ((k + 1) * s)
step_exact n s k h fits =
    ap wrap64 (*ℤ_pos (k + 1) s)
    ∙ wrap64-eq_self (pos ((k + 1) * s)) (omega (arith, step_room n s k h))

module _ (lower upper : ℤ) (n s : ℕ) (f : Fits upper lower n s) (a : neg_part lower < 2 ^ 82)
    (b : pos_part upper < 2 ^ 82) where
  below_upper : (k : ℕ) → k + 1 ≤ n → moment lower s (k + 1) +ℤ pos millisecond ≤ℤ upper
  below_upper k h = omega (int_laws, step_room n s k h, f.before_upper, f.enough)

  moment_small : (k : ℕ) → k + 1 ≤ n → pos_part (moment lower s (k + 1)) < 2 ^ 82
  moment_small k h =
      omega
        (arith, pos_part_mono (moment lower s (k + 1)) upper (omega (int_laws, below_upper k h)))

  moment_above : (k : ℕ) → neg_part (moment lower s k) < 2 ^ 82
  moment_above k = omega (arith, neg_part_mono lower (moment lower s k) (omega int_laws))

  next_moment : (k : ℕ) → moment lower s k +ℤ pos millisecond ≤ℤ moment lower s (k + 1)
  next_moment k = omega (int_laws, f.enough)

  date_run-Rising :
      (k : ℕ) (es : List Entry)
      → k + length es ≤ n
      → Rising (unix_milli (moment lower s k)) (unix_milli upper) (date_run lower (pos s) k es)
  unfolding date_run
  date_run-Rising k [] fits = tt
  date_run-Rising k (e ∷ es) fits =
      let room : k + 1 ≤ n = omega arith in
      rw (step_exact n s k room f.in_range) (
        unix_milli_mono (moment lower s k) (moment lower s (k + 1)) (next_moment k) (moment_above k)
            (moment_small k room),
        unix_milli_mono (moment lower s (k + 1)) upper (below_upper k room) (moment_above (k + 1))
            b,
        date_run-Rising (k + 1) es (omega arith),
      )

lower_of-le : (prev : Option ℤ) (earliest : ℤ) → earliest ≤ℤ lower_of prev earliest
lower_of-le none earliest = omega arith
lower_of-le (some ms) earliest = ground arith

-- No run begins before its seconds.
run_window-late :
    (prev : Option ℤ) (upper : ℤ) (n : ℕ) → seconds_before upper n ≤ℤ (run_window prev upper n).0
unfolding run_window
run_window-late prev upper n =
    let lower = lower_of prev (seconds_before upper n) in
    elim (Bool-cases (ltb_ℤ (share upper lower n) (pos millisecond))) [
      | inl narrow ↦ rw narrow (omega arith)
      | inr wide ↦ rw wide (lower_of-le prev (seconds_before upper n))
    ]

seconds_before-parts :
    (upper : ℤ) (n : ℕ)
    → (n + 1) * second < 2 ^ 63
    → neg_part (seconds_before upper n) ≤ neg_part upper + 2 ^ 63
seconds_before-parts upper n h =
    let exact = wrap64-eq_self (negsuc ((n + 1) * second - 1)) (omega arith) in
    rw (neg_seconds, exact) (unfold ◌+ℤ◌ in ground arith)

from_milli_parts :
    (u : ℤ)
    → (pos_part (from_milli u) ≡ pos_part u * millisecond)
      × (neg_part (from_milli u) ≡ neg_part u * millisecond)
unfolding ◌*ℤ◌
from_milli_parts (pos u) = (ground arith, ground arith)
from_milli_parts (negsuc u) = (ground arith, ground arith)

unix-from_milli :
    (u : ℤ) → pos_part u < 2 ^ 61 → neg_part u < 2 ^ 61 → unix_milli (from_milli u) ≡ u
unfolding unix_milli ◌*ℤ◌ wrap64
unix-from_milli (pos u) a b = ground arith
unix-from_milli (negsuc u) a b = ground arith

moment-zero : (low : ℤ) (s : ℕ) → moment low s 0 ≡ low
moment-zero low s = eq_of_parts (moment low s 0) low (omega int_laws)

-- The times of a run of undated entries strictly increase, in milliseconds, and stay before the time
-- `u` of the dated entry behind the run, whatever stands above the run; so that no two of them are
-- the same. The run counts fewer than some nine thousand million entries, and `u` is no further from
-- 1970 than a hundred million years.
pub run_rises :
    (prev : Option ℤ) (u : ℤ) (run : List Entry)
    → (length run + 1) * second < 2 ^ 63
    → pos_part u < 2 ^ 61
    → neg_part u < 2 ^ 61
    → (low : ℤ) × (step : ℤ) × (run_window prev (from_milli u) (length run) ≡ (low, step))
      × Rising (unix_milli low) u (date_run low step 0 run)
run_rises prev u run h a b =
    let upper = from_milli u in
    let (low, step) = run_window prev upper (length run) in
    let (s, is_step, fits) = run_window-Fits prev upper (length run) h in
    let (p, q) = from_milli_parts u in
    let low_small : neg_part low < 2 ^ 82 = omega (
      arith,
      neg_part_mono (seconds_before upper (length run)) low
          (run_window-late prev upper (length run)),
      seconds_before-parts upper (length run) h,
    ) in
    let rising =
      date_run-Rising low upper (length run) s fits low_small (omega arith) 0 run (omega arith) in
    (low, step, refl, rw is_step (rw (moment-zero low s, unix-from_milli u a b) at rising))
