-- ===== src/Store/Counts.antt =====
-- internal/store/stats.go: the counts of a command add up.
use shcr.Base.{
  ℕ, suc, ◌+◌, List, [], ◌∷◌, if◌then◌else◌, length, ◌≡◌, refl, arith, Bool-cases, Option-cases,
  inl, inr,
}
use shcr.Base.Bytes.{Bytes}
use shcr.Base.Int.{ltb_ℤ}
use shcr.Base.Sort.{sort, sort_onto, insert}
use shcr.Rank.Outcome.{Outcome, classify_exit}
use shcr.Rank.Frecency.{Weights, observe}
use shcr.Store.Types.{Command, Db}
use shcr.Store.Stats.{
  CommandStat, count_outcome, count_result, count_run, count_runs, is_unfinished, executions,
  starts_before, no_runs, stat_for,
}

length-insert :
    (c : Command) (l : List Command) → length (insert starts_before c l) ≡ suc (length l)
unfolding insert
length-insert c [] = refl
length-insert c (d ∷ l) = ground (arith, length-insert c l)

length-sort_onto :
    (out l : List Command) → length (sort_onto starts_before out l) ≡ length out + length l
unfolding sort_onto
length-sort_onto out [] = omega arith
length-sort_onto out (c ∷ l) =
    let one = length-insert c out in
    let rest = length-sort_onto (insert starts_before c out) l in omega arith

module _ {W : Type 0} (weights : Weights W) where
  abbrev results : CommandStat W → ℕ
  results st = st.succeeded + st.failures + st.never_ran + st.interrupted + st.unfinished

  results-count_outcome :
      (o : Outcome) (c : Command) (st : CommandStat W)
      → (results (count_outcome weights o c.start_time st) ≡ suc (results st))
        × ((count_outcome weights o c.start_time st).runs ≡ st.runs)
  unfolding count_outcome
  results-count_outcome Outcome.success c st = (omega arith, refl)
  results-count_outcome Outcome.never_ran c st = (omega arith, refl)
  results-count_outcome Outcome.interrupted c st = (omega arith, refl)
  results-count_outcome Outcome.failure c st = (omega arith, refl)

  results-count_result :
      (c : Command) (st : CommandStat W)
      → (results (count_result weights c st) ≡ suc (results st))
        × ((count_result weights c st).runs ≡ st.runs)
  unfolding count_result
  results-count_result c st = elim (Bool-cases (is_unfinished c.status c.exit_code)) [
    | inl open_end ↦ rw (open_end, count_result) (omega arith, refl)
    | inr ended ↦ elim (Option-cases c.exit_code) [
      | inl missing ↦ rw (ended, missing, count_result) (omega arith, refl)
      | inr (code, there) ↦
          rw (ended, there, count_result) (results-count_outcome (classify_exit code) c st)
    ]
  ]

  results-count_run :
      (c : Command) (st : CommandStat W)
      → (results (count_run weights c st) ≡ suc (results st))
        × ((count_run weights c st).runs ≡ suc st.runs)
  unfolding count_run
  results-count_run c st =
      let (sum, runs) = results-count_result c (record st {
        runs = st.runs + 1;
        last_time = if ltb_ℤ st.last_time c.start_time then c.start_time else st.last_time;
        frecency = observe weights st.frecency c.start_time;
        imported_runs = if c.imported then st.imported_runs + 1 else st.imported_runs;
      }) in
      (sum, omega (arith, runs))

  results-count_runs :
      (rows : List Command) (st : CommandStat W)
      → (results (count_runs weights rows st) + st.runs
          ≡ results st + (count_runs weights rows st).runs)
        × ((count_runs weights rows st).runs ≡ st.runs + length rows)
  unfolding count_runs
  results-count_runs [] st = (omega arith, omega arith)
  results-count_runs (c ∷ rows) st =
      let (rest, runs) = results-count_runs rows (count_run weights c st) in
      let (one, run) = results-count_run c st in (omega arith, omega arith)

  -- The runs of a command are all its executions, and each is counted as exactly one of succeeded,
  -- failed, never run, interrupted and unfinished.
  pub stat_for_adds_up :
      (db : Db) (text : Bytes)
      → ((stat_for weights db text).runs ≡ length (executions text db.commands))
        × ((stat_for weights db text).runs
            ≡ (stat_for weights db text).succeeded
              + (stat_for weights db text).failures
              + (stat_for weights db text).never_ran
              + (stat_for weights db text).interrupted
              + (stat_for weights db text).unfinished)
  unfolding stat_for sort
  stat_for_adds_up db text =
      let rows = sort starts_before (executions text db.commands) in
      let (sum, runs) = results-count_runs rows (no_runs weights text) in
      let same = length-sort_onto [] (executions text db.commands) in (omega arith, omega arith)
