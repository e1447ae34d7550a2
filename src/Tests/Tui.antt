-- ===== src/Tests/Tui.antt =====
-- The picker over a store with one failed command.
use shcr.Base.{
  ℕ, ◌+◌, ◌-◌, ◌*◌, ◌/◌, min, max, ltb, ◌==◌, true, false, none, some, [], ◌∷◌, ◌≡◌, ◌≢◌, refl, map,
}
use shcr.Base.Bytes.{Bytes, codes, bytes_eq, bytes_lt}
use shcr.Base.Int.{ℤ, pos, wrap64, ◌-ℤ◌}
use shcr.Base.Sort.{sort, insert}
use shcr.Base.Table.{lookup, upsert}
use shcr.Event.{EventType}
use shcr.Rank.Outcome.{Outcome, classify_exit}
use shcr.Store.Types.{Command, Status, Db, empty_db}
use shcr.Store.Recompute.{events_of, recompute, gather, derive}
use shcr.Store.Log.{append_event, has_event}
use shcr.Store.Materialized.{IsView-empty}
use shcr.Store.Delivery.{deliver, deliver-IsView}
use shcr.Store.Stats.{
  stat_for, count_runs, count_run, count_result, count_outcome, is_unfinished, executions,
  starts_before,
}
use shcr.Store.Candidates.{like, like_any, rest_of_char}
use shcr.Rank.Score.{Floats}
use shcr.Store.Stats.{CommandStat}
use shcr.Store.Candidates.{Where}
use shcr.Tests.Rank.{ascii}
use shcr.Tui.{Ranking, ranked_candidates, status_possible, status_matches}
use shcr.Tui.Tiers.{ByTier, ranked_candidates-ByTier}
use shcr.Tui.Possible.{status_possible-admits}
use shcr.Tests.Store.{toy, event, started, log_db, in_order}
use shcr.Tests.Stats.{tally}

-- LIKE takes an underscore of the pattern for any character.
underscore : like (codes "/my_repo/%") (codes "/my-repo/sub/") ≡ true
unfolding like like_any rest_of_char
underscore = refl

-- The row of the command of `log_db`.
abbrev failed_row : Command
failed_row = record {
  id = codes "c";
  command = codes "make";
  hostname = codes "box";
  device_id = codes "laptop";
  session_id = codes "s1";
  cwd = codes "/";
  git_branch = none;
  shell = codes "zsh";
  start_time = pos 1000;
  end_time = some (pos 3500);
  exit_code = some (pos 2);
  duration_ms = some (pos 2500);
  status = Status.failed;
  pgid = pos 42;
  is_background = false;
  imported = false;
}

row_there : lookup (codes "c") log_db.commands ≡ some failed_row
unfolding deliver append_event recompute gather derive sort insert lookup upsert bytes_eq bytes_lt
    events_of wrap64 ◌-ℤ◌ has_event
row_there = refl

two_is_failure : classify_exit (pos 2) ≡ Outcome.failure
unfolding classify_exit
two_is_failure = refl

uninterrupted :
    (code : ℤ) → failed_row.exit_code ≡ some code → classify_exit code ≢ Outcome.interrupted
uninterrupted code h e = cc (two_is_failure, h, e)

status_possible-admits_example :
    status_possible (stat_for tally log_db (codes "make")) (codes "failed") ≡ true
unfolding status_matches bytes_eq
status_possible-admits_example =
    status_possible-admits tally toy log_db (codes "c") failed_row (codes "failed")
      (deliver-IsView toy empty_db in_order (IsView-empty toy)) row_there uninterrupted refl

-- The digit of the end event is one past the digits, so that the exit code is 130.
abbrev interrupted_db : Db
interrupted_db =
    deliver toy empty_db
      ((started, false) ∷ (event EventType.end (codes "e2") 2 (178 ∷ []), false) ∷ [])

-- Its row has the status failed, and the gate does not let it through.
interrupted_ruled_out :
    (status_possible (stat_for tally interrupted_db (codes "make")) (codes "failed") ≡ false)
    × (map (λ row. row.1.status) interrupted_db.commands ≡ Status.failed ∷ [])
unfolding deliver append_event recompute gather derive sort insert lookup upsert bytes_eq bytes_lt
    events_of wrap64 ◌-ℤ◌ has_event status_possible stat_for count_runs count_run count_result
    count_outcome is_unfinished executions starts_before classify_exit
interrupted_ruled_out = (refl, refl)

-- Arithmetic on numbers in place of that on floats.
abbrev numbers : Floats ℕ
numbers = record {
  hundredths = λ n. n;
  of_nat = λ n. n;
  plus = λ a b. a + b;
  minus = λ a b. a - b;
  times = λ a b. a * b;
  divided = λ a b. a / b;
  cube_root = λ a. a;
  log1p = λ a. a;
  lower = λ a b. min a b;
  higher = λ a b. max a b;
  above = λ a b. ltb b a;
}

abbrev ranking : Ranking ℕ
ranking = record {
  letters = ascii;
  is_space = λ r. r == b' ';
  runes = λ text. text;
  floats = numbers;
  weights = tally;
  score_gt = λ a b. ltb b a;
  score_eq = ◌==◌;
}

abbrev ran_once : Bytes → CommandStat ℕ
ran_once text = record {
  command = text;
  runs = 1;
  last_time = pos 1000;
  frecency = record { weight = 1; at = pos 1000; last_counted = pos 1000 };
  succeeded = 1;
  failures = 0;
  never_ran = 0;
  interrupted = 0;
  unfinished = 0;
  imported_runs = 0;
  last_failed_at = pos 0;
}

abbrev nowhere : Where
nowhere = record { cwd = []; repo = []; session_id = []; hostname = []; branch = [] }

ranked_candidates-ByTier_example : ByTier (
    ranked_candidates ranking log_db
      (ran_once (codes "npmRunBuild") ∷ ran_once (codes "make") ∷ ran_once (codes "build") ∷ [])
      nowhere
      (codes "build" ∷ [])
      []
      (pos 2000))
ranked_candidates-ByTier_example =
    ranked_candidates-ByTier ranking log_db
      (ran_once (codes "npmRunBuild") ∷ ran_once (codes "make") ∷ ran_once (codes "build") ∷ [])
      nowhere (codes "build" ∷ []) [] (pos 2000)
