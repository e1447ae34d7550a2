-- ===== src/Tests/Loop.antt =====
-- The loop with the default configuration: a first attempt, and one for a trigger.
use shcr.Base.{◌+◌, ◌*◌, none, List, [], ◌∷◌, ◌≡◌, inr, ◌⊎◌, arith}
use shcr.Base.Int.{ℤ, pos, wrap64, ◌+ℤ◌, ◌-ℤ◌, ◌*ℤ◌, ◌≤ℤ◌, ◌<ℤ◌}
use shcr.Histfile.Undated.{second, sub_time, clamp_duration}
use shcr.Sync.Loop.{
  Trigger, default_loop_config, with_defaults, next_backoff, first_round, synced, failed, on_timer,
  on_trigger, wait_of, deadline, delay, until, Runs, stopped, triggered, fired,
}
use shcr.Sync.Floor.{Spaced, attempts-Spaced, next_backoff_bounds}

abbrev times : List ℤ
times = pos 5 ∷ pos (5 + 30 * second) ∷ pos (5 + 60 * second) ∷ []

run : Runs (with_defaults default_loop_config) first_round times
unfolding with_defaults on_timer on_trigger delay deadline until sub_time clamp_duration wait_of
    next_backoff wrap64 ◌+ℤ◌ ◌-ℤ◌ ◌*ℤ◌
run = fired first_round (pos 1) (pos 0) (pos 5) (synced (pos 7)) _ tt (omega arith) (
    triggered _ Trigger.command _ (
      fired _ (pos 9) (pos 0) (pos (5 + 30 * second)) failed _ (omega arith) (omega arith) (
        fired _ (pos (6 + 30 * second)) (pos 0) (pos (5 + 60 * second))
          (synced (pos (7 + 60 * second))) _ (omega arith) (omega arith) (stopped _))))

attempts-Spaced_example :
    Spaced (with_defaults default_loop_config).min_interval none times
    × (pos 1 ≤ℤ (with_defaults default_loop_config).min_interval)
attempts-Spaced_example =
    attempts-Spaced default_loop_config times
      ((omega arith, omega arith), (omega arith, omega arith)) run

abbrev half_minute : ℤ
half_minute = pos (30 * second)

next_backoff_bounds_example :
    (half_minute ≤ℤ next_backoff half_minute half_minute (pos (900 * second)))
    × (next_backoff half_minute half_minute (pos (900 * second)) ≤ℤ pos (900 * second))
    × ((half_minute ≤ℤ pos 0)
          × (next_backoff half_minute half_minute (pos (900 * second)) ≡ half_minute)
        ⊎ (pos 1 ≤ℤ half_minute)
          × (half_minute *ℤ pos 2 ≤ℤ pos (900 * second))
          × (next_backoff half_minute half_minute (pos (900 * second)) ≡ half_minute *ℤ pos 2)
        ⊎ (pos 1 ≤ℤ half_minute)
          × (pos (900 * second) <ℤ half_minute *ℤ pos 2)
          × (next_backoff half_minute half_minute (pos (900 * second)) ≡ pos (900 * second)))
next_backoff_bounds_example =
    next_backoff_bounds half_minute half_minute (pos (900 * second)) (omega arith) (omega arith)
      (omega arith) (inr (omega arith, omega arith))
