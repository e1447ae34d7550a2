-- ===== src/Tui/Possible.antt =====
-- internal/tui/ranking.go, `statusPossible`: the gate on the cached counts against the rows.
use shcr.Base.{
  ◌+◌, ◌≤◌, ◌<◌, true, false, some, List, [], ◌∷◌, if◌then◌else◌, ◌≡◌, ◌≢◌, refl, ap, subst, ◌∙◌,
  ◌⊎◌, inl, inr, arith, Bool-cases, Option-cases, In,
}
use shcr.Base.Bytes.{Bytes, bytes_eq, bytes_eq_iff, bytes_eq_refl, is_empty}
use shcr.Base.Int.{ℤ, pos, ltb_ℤ, eqb_ℤ, eqb_ℤ-iff}
use shcr.Base.Sort.{sort, In-sort}
use shcr.Base.Table.{Table, lookup}
use shcr.Event.{Codec, Event}
use shcr.Rank.Outcome.{Outcome, classify_exit}
use shcr.Rank.Frecency.{Weights, observe}
use shcr.Store.Types.{Command, Status, Db}
use shcr.Store.Recompute.{Gathered, settle, resolve, derive, events_of}
use shcr.Store.Convergence.{derive-cons}
use shcr.Store.Materialized.{IsView}
use shcr.Store.Stats.{
  CommandStat, count_outcome, count_result, count_run, count_runs, is_unfinished, executions,
  starts_before, no_runs, stat_for,
}
use shcr.Store.Queries.{status_name}
use shcr.Tui.{status_possible, status_matches}

-- What a status says of the other columns.
abbrev pub Consistent : Status → Command → Type 0
Consistent Status.completed c = (c.exit_code ≡ some (pos 0)) ⊎ (c.imported ≡ true)
Consistent Status.failed c = (code : ℤ) × (c.exit_code ≡ some code) × (eqb_ℤ code (pos 0) ≡ false)
Consistent _ c = Unit

module _ {W : Type 0} (weights : Weights W) where
  -- No count has gone down.
  abbrev Covers : CommandStat W → CommandStat W → Type 0
  Covers st st' =
      (st.unfinished ≤ st'.unfinished)
      × (st.failures ≤ st'.failures)
      × (st.never_ran ≤ st'.never_ran)
      × (st.succeeded ≤ st'.succeeded)
      × (st.imported_runs ≤ st'.imported_runs)

  count_outcome-Covers :
      (o : Outcome) (t : ℤ) (st : CommandStat W) → Covers st (count_outcome weights o t st)
  unfolding count_outcome
  count_outcome-Covers Outcome.success t st = ground arith
  count_outcome-Covers Outcome.failure t st = ground arith
  count_outcome-Covers Outcome.never_ran t st = ground arith
  count_outcome-Covers Outcome.interrupted t st = ground arith

  count_result-Covers : (c : Command) (st : CommandStat W) → Covers st (count_result weights c st)
  unfolding count_result
  count_result-Covers c st = elim (Bool-cases (is_unfinished c.status c.exit_code)) [
    | inl open_end ↦ rw (open_end, count_result) (ground arith)
    | inr ended ↦ elim (Option-cases c.exit_code) [
      | inl missing ↦ rw (ended, missing, count_result) (ground arith)
      | inr (code, there) ↦
          rw (ended, there, count_result)
            (count_outcome-Covers (classify_exit code) c.start_time st)
    ]
  ]

  abbrev started : Command → CommandStat W → CommandStat W
  started c st = record st {
    runs = st.runs + 1;
    last_time = if ltb_ℤ st.last_time c.start_time then c.start_time else st.last_time;
    frecency = observe weights st.frecency c.start_time;
    imported_runs = if c.imported then st.imported_runs + 1 else st.imported_runs;
  }

  count_run-Covers : (c : Command) (st : CommandStat W) → Covers st (count_run weights c st)
  unfolding count_run
  count_run-Covers c st = ground (arith, count_result-Covers c (started c st))

  Covers-possible :
      (st st' : CommandStat W) (status : Bytes)
      → Covers st st'
      → status_possible st status ≡ true
      → status_possible st' status ≡ true
  unfolding status_possible
  Covers-possible st st' status h p = ground arith

  count_result-unfinished :
      (c : Command) (st : CommandStat W)
      → is_unfinished c.status c.exit_code ≡ true
      → (count_result weights c st).unfinished ≡ st.unfinished + 1
  unfolding count_result
  count_result-unfinished c st h = rw (h, count_result) refl

  count_result-exit :
      (c : Command) (st : CommandStat W) (code : ℤ)
      → c.exit_code ≡ some code
      → is_unfinished c.status (some code) ≡ false
      → count_result weights c st ≡ count_outcome weights (classify_exit code) c.start_time st
  unfolding count_result
  count_result-exit c st code there ended = rw (there, ended, count_result) refl

  -- A code that is not zero and not that of an interruption is counted as a failure of some kind.
  count_outcome-failed :
      (code : ℤ) (t : ℤ) (st : CommandStat W)
      → eqb_ℤ code (pos 0) ≡ false
      → classify_exit code ≢ Outcome.interrupted
      → 0
        < (count_outcome weights (classify_exit code) t st).failures
          + (count_outcome weights (classify_exit code) t st).never_ran
  unfolding count_outcome classify_exit
  count_outcome-failed code t st differ e = ground arith

  -- A run counts for its own status.
  count_run-possible :
      (s : Status) (c : Command) (st : CommandStat W)
      → c.status ≡ s
      → Consistent s c
      → ((code : ℤ) → c.exit_code ≡ some code → classify_exit code ≢ Outcome.interrupted)
      → status_possible (count_run weights c st) (status_name s) ≡ true
  unfolding status_possible bytes_eq count_run is_unfinished classify_exit
  count_run-possible Status.running c st is k e =
      let open_end : is_unfinished c.status c.exit_code ≡ true = rw is refl in
      ground (arith, count_result-unfinished c (started c st) open_end)
  count_run-possible Status.orphaned c st is k e =
      let open_end : is_unfinished c.status c.exit_code ≡ true = rw is refl in
      ground (arith, count_result-unfinished c (started c st) open_end)
  count_run-possible Status.completed c st is (inl zero_code) e =
      let ended : is_unfinished c.status (some (pos 0)) ≡ false = rw is refl in
      rw (count_result-exit c (started c st) (pos 0) zero_code ended)
        (unfold count_outcome in ground arith)
  count_run-possible Status.completed c st is (inr imported) e =
      ground (arith, imported, count_result-Covers c (started c st))
  count_run-possible Status.failed c st is (code, there, differ) e =
      let ended : is_unfinished c.status (some code) ≡ false = rw is refl in
      let failed = count_outcome-failed code c.start_time (started c st) differ (e code there) in
      ground (arith, count_result-exit c (started c st) code there ended, failed)

  count_runs-possible :
      (rows : List Command) (st : CommandStat W) (status : Bytes)
      → status_possible st status ≡ true
      → status_possible (count_runs weights rows st) status ≡ true
  unfolding count_runs
  count_runs-possible [] st status h = h
  count_runs-possible (c ∷ rows) st status h =
      count_runs-possible rows (count_run weights c st) status
        (Covers-possible st (count_run weights c st) status (count_run-Covers c st) h)

  count_runs-In :
      (rows : List Command) (st : CommandStat W) (c : Command)
      → In c rows
      → Consistent c.status c
      → ((code : ℤ) → c.exit_code ≡ some code → classify_exit code ≢ Outcome.interrupted)
      → status_possible (count_runs weights rows st) (status_name c.status) ≡ true
  unfolding count_runs
  count_runs-In [] st c none_there k e = absurd none_there
  count_runs-In (d ∷ rows) st c (inl same) k e =
      count_runs-possible rows (count_run weights d st) (status_name c.status) (
        subst
          (λ (x : Command). status_possible (count_run weights x st) (status_name c.status) ≡ true)
          same (count_run-possible c.status c st refl k e))
  count_runs-In (d ∷ rows) st c (inr there) k e =
      count_runs-In rows (count_run weights d st) c there k e

lookup-executions :
    (id : Bytes) (c : Command) (rows : Table Command)
    → lookup id rows ≡ some c
    → In c (executions c.command rows)
unfolding lookup executions
lookup-executions id c [] h = cc h
lookup-executions id c ((j, d) ∷ rows) h = elim (Bool-cases (bytes_eq j id)) [
  | inl here ↦
      let same : d ≡ c = cc (rw (here, lookup) at h) in
      rw (same, bytes_eq_refl c.command) (inl refl)
  | inr there ↦
      let rest = lookup-executions id c rows (rw (there, lookup) at h) in
      elim (Bool-cases (bytes_eq d.command c.command)) [
        | inl text ↦ rw text (inr rest)
        | inr other ↦ rw other rest
      ]
]

settle-Consistent :
    (d : Bytes) (g : Gathered) (s : Status) → (settle d g).status ≡ s → Consistent s (settle d g)
unfolding settle resolve
settle-Consistent d g Status.running h = tt
settle-Consistent d g Status.orphaned h = tt
settle-Consistent d g Status.completed h = elim (Option-cases g.ended) [
  | inl open_end ↦ inr (ground arith)
  | inr (p, over) ↦ inl (ground (arith, eqb_ℤ-iff p.exit_code (pos 0)))
]
settle-Consistent d g Status.failed h = elim (Option-cases g.ended) [
  | inl open_end ↦ absurd (ground arith)
  | inr (p, over) ↦ (p.exit_code, ground arith, ground arith)
]

derive-Consistent :
    (codec : Codec) (id : Bytes) (es : List Event) (c : Command)
    → derive codec id es ≡ some (some c)
    → Consistent c.status c
derive-Consistent codec id [] c h = unfold derive in (cc h)
derive-Consistent codec id (e ∷ es) c h =
    let (g, done, row) = derive-cons codec id e es h in
    let same : settle e.device_id g ≡ c = cc row in
    subst (λ (x : Command). Consistent x.status x) same
      (settle-Consistent e.device_id g (settle e.device_id g).status refl)

-- The gate lets through every command with a run that has the wanted status, so long as the run was
-- not interrupted by a signal; if the rows of the store are what its log derives.
pub status_possible-admits :
    {W : Type 0} (weights : Weights W) (codec : Codec) (db : Db) (id : Bytes) (c : Command)
    (status : Bytes)
    → IsView codec db
    → lookup id db.commands ≡ some c
    → ((code : ℤ) → c.exit_code ≡ some code → classify_exit code ≢ Outcome.interrupted)
    → status_matches c status ≡ true
    → status_possible (stat_for weights db c.command) status ≡ true
unfolding stat_for status_matches
status_possible-admits weights codec db id c status v here uninterrupted matches =
    elim (Bool-cases (is_empty status)) [
      | inl blank ↦ unfold status_possible in (rw blank refl)
      | inr wanted ↦
          let same : status_name c.status ≡ status =
            (bytes_eq_iff (status_name c.status) status).0 (ground arith) in
          let derived = v.row id ∙ ap some here in
          rw (← same) (
            count_runs-In weights (sort starts_before (executions c.command db.commands))
              (no_runs weights c.command) c
              ((In-sort starts_before c (executions c.command db.commands)).1
                (lookup-executions id c db.commands here))
              (derive-Consistent codec id (events_of id db.events) c derived) uninterrupted)
    ]
