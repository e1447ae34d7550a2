-- ===== src/Histfile/Undated.antt =====
-- `approximateUndated`: times for the entries that the file left undated. A time.Time is its
-- nanoseconds since 1970, a time.Duration a wrapped 64-bit number of nanoseconds.
use shcr.Base.{
  ℕ, zero, suc, ◌+◌, ◌-◌, ◌/◌, ◌^◌, true, Option, none, some, List, [], ◌∷◌, ◌++◌, if◌then◌else◌,
  length,
}
use shcr.Base.Int.{ℤ, pos, negsuc, ◌+ℤ◌, ◌-ℤ◌, ◌*ℤ◌, quot_ℕ, ltb_ℤ, eqb_ℤ, wrap64}
use shcr.Histfile.Entries.{Entry}

abbrev pub millisecond : ℕ
millisecond = 1_000_000

abbrev pub second : ℕ
second = 1_000_000_000

-- `time.UnixMilli`
abbrev pub from_milli : ℤ → ℤ
from_milli ms = ms *ℤ pos millisecond

-- `Time.UnixMilli`, which rounds down.
unfoldable pub unix_milli : ℤ → ℤ
unix_milli (pos t) = wrap64 (pos (t / millisecond))
unix_milli (negsuc t) = wrap64 (negsuc (t / millisecond))

-- The nearest time.Duration.
unfoldable pub clamp_duration : ℤ → ℤ
clamp_duration d =
    if ltb_ℤ (pos (2 ^ 63 - 1)) d
    then pos (2 ^ 63 - 1)
    else if ltb_ℤ d (negsuc (2 ^ 63 - 1))
    then negsuc (2 ^ 63 - 1)
    else d

-- `Time.Sub`, which stops at the ends of the range.
unfoldable pub sub_time : ℤ → ℤ → ℤ
unfolding clamp_duration
sub_time a b = clamp_duration (a -ℤ b)

-- `upper.Add(-time.Duration(n+1) * time.Second)`
abbrev pub seconds_before : ℤ → ℕ → ℤ
seconds_before upper n = upper +ℤ wrap64 ((pos 0 -ℤ pos (n + 1)) *ℤ pos second)

-- `time.Duration(n+1)` is the divisor, and Go's division rounds towards zero.
abbrev pub share : ℤ → ℤ → ℕ → ℤ
share upper lower n = quot_ℕ (sub_time upper lower) (n + 1)

-- The later of the earliest begin and the entry above the run, whose time is `prev`.
abbrev pub lower_of : Option ℤ → ℤ → ℤ
lower_of none earliest = earliest
lower_of (some ms) earliest = if ltb_ℤ earliest (from_milli ms) then from_milli ms else earliest

-- Where a run of `n` entries begins, and the step between them.
unfoldable pub run_window : Option ℤ → ℤ → ℕ → ℤ × ℤ
run_window prev upper n =
    let earliest = seconds_before upper n in
    let lower = lower_of prev earliest in
    let step = share upper lower n in
    if ltb_ℤ step (pos millisecond) then (earliest, pos second) else (lower, step)

-- `lower.Add(time.Duration(k+1) * step).UnixMilli()` for the entries of a run, from `k` on.
unfoldable pub date_run : ℤ → ℤ → ℕ → List Entry → List Entry
date_run lower step k [] = []
date_run lower step k (e ∷ es) =
    record e { start_time = unix_milli (lower +ℤ wrap64 (pos (k + 1) *ℤ step)); approximate = true }
    ∷ date_run lower step (k + 1) es

-- The undated entries in front, and the rest.
unfoldable pub undated_run : List Entry → List Entry × List Entry
undated_run [] = ([], [])
undated_run (e ∷ es) =
    let (run, rest) = undated_run es in
    if eqb_ℤ e.start_time (pos 0) then (e ∷ run, rest) else ([], e ∷ es)

abbrev pub upper_of : ℤ → List Entry → ℤ
upper_of end [] = end
upper_of end (e ∷ _) = from_milli e.start_time

unfoldable pub last_time : Option ℤ → List Entry → Option ℤ
last_time prev [] = prev
last_time prev (e ∷ es) = last_time (some e.start_time) es

unfoldable pub approximate_from : ℕ → Option ℤ → List Entry → ℤ → List Entry
approximate_from zero prev es end = es
approximate_from (suc fuel) prev [] end = []
approximate_from (suc fuel) prev (e ∷ es) end =
    let (run, rest) = undated_run (e ∷ es) in
    let (lower, step) = run_window prev (upper_of end rest) (length run) in
    let dated = date_run lower step 0 run in
    let next = e ∷ approximate_from fuel (some e.start_time) es end in
    let filled = dated ++ approximate_from fuel (last_time prev dated) rest end in
    if eqb_ℤ e.start_time (pos 0) then filled else next

-- Each round takes at least one entry.
unfoldable pub approximate_undated : List Entry → ℤ → List Entry
approximate_undated entries end = approximate_from (length entries) none entries end
