-- ===== src/Tests/Stats.antt =====
-- The ranking cache behind one failed command, with the number of executions for its weight.
use shcr.Base.{ℕ, ◌+◌, none, [], length, if◌then◌else◌, ◌==◌, ◌≡◌, refl}
use shcr.Base.Bytes.{codes}
use shcr.Base.Int.{pos}
use shcr.Base.Table.{lookup}
use shcr.Rank.Outcome.{classify_exit, Outcome}
use shcr.Rank.Frecency.{Weights}
use shcr.Store.Stats.{Cache, stat_for, executions, refresh_command_stats}
use shcr.Store.Counts.{stat_for_adds_up}
use shcr.Store.Refresh.{refreshed, in_scope, refresh_exact}
use shcr.Tests.Store.{log_db}

abbrev pub tally : Weights ℕ
tally = record { decayed = λ w d. w; counted = λ w d. w + 1; no_weight = 0 }

abbrev pub empty_cache : Cache ℕ
empty_cache = record { command_stats = []; watermark = 0 }

exit_codes :
    (classify_exit (pos 0) ≡ Outcome.success)
    × (classify_exit (pos 127) ≡ Outcome.never_ran)
    × (classify_exit (pos 130) ≡ Outcome.interrupted)
    × (classify_exit (pos 255) ≡ Outcome.failure)
unfolding classify_exit
exit_codes = (refl, refl, refl, refl)

stat_for_adds_up_example :
    ((stat_for tally log_db (codes "make")).runs
      ≡ length (executions (codes "make") log_db.commands))
    × ((stat_for tally log_db (codes "make")).runs
        ≡ (stat_for tally log_db (codes "make")).succeeded
          + (stat_for tally log_db (codes "make")).failures
          + (stat_for tally log_db (codes "make")).never_ran
          + (stat_for tally log_db (codes "make")).interrupted
          + (stat_for tally log_db (codes "make")).unfinished)
stat_for_adds_up_example = stat_for_adds_up tally log_db (codes "make")

refresh_exact_example :
    lookup (codes "make") (refresh_command_stats tally log_db 1 empty_cache).2.command_stats ≡ (
      if in_scope tally log_db 1 (codes "make")
      then refreshed tally log_db (codes "make")
      else if 1 == 0
      then none
      else lookup (codes "make") empty_cache.command_stats)
refresh_exact_example = refresh_exact tally log_db 1 empty_cache (codes "make")
