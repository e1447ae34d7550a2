-- ===== src/Store/Stats.antt =====
-- internal/store/stats.go: the ranking cache. An event's rowid is its place in the log, from 1.
use shcr.Base.{
  ℕ, ◌+◌, Bool, true, false, ◌||◌, Option, none, some, List, [], ◌∷◌, if◌then◌else◌, ◌==◌, length,
  drop, take, map,
}
use shcr.Base.Bytes.{Bytes, bytes_eq, is_empty}
use shcr.Base.Int.{ℤ, pos, ltb_ℤ, leb_ℤ, pos_part}
use shcr.Base.Sort.{sort}
use shcr.Base.Table.{Table, lookup, upsert}
use shcr.Rank.Outcome.{Outcome, classify_exit}
use shcr.Rank.Frecency.{Weights, Counter, new_counter, observe}
use shcr.Store.Types.{Status, Command, Row, Db}

pub record CommandStat (W : Type 0) : Type 0 where
  pub command : Bytes
  pub runs : ℕ
  pub last_time : ℤ
  pub frecency : Counter W
  pub succeeded : ℕ
  pub failures : ℕ
  pub never_ran : ℕ
  pub interrupted : ℕ
  pub unfinished : ℕ
  pub imported_runs : ℕ
  pub last_failed_at : ℤ

-- The tables `command_stats` and `stats_meta`.
pub record Cache (W : Type 0) : Type 0 where
  pub command_stats : Table (CommandStat W)
  pub watermark : ℕ

unfoldable pub has_text : Bytes → List Bytes → Bool
has_text c [] = false
has_text c (d ∷ texts) = bytes_eq d c || has_text c texts

-- DISTINCT
unfoldable pub distinct : List Bytes → List Bytes
unfolding has_text
distinct [] = []
distinct (c ∷ texts) = if has_text c texts then distinct texts else c ∷ distinct texts

-- WHERE command <> ''
unfoldable pub texts_of : Table Command → List Bytes
texts_of [] = []
texts_of ((id, c) ∷ rows) = if is_empty c.command then texts_of rows else c.command ∷ texts_of rows

-- events JOIN commands ON commands.id = events.command_id WHERE command <> ''
unfoldable pub joined_texts : Table Command → List Row → List Bytes
unfolding lookup
joined_texts commands [] = []
joined_texts commands (r ∷ rows) = elim (lookup r.event.command_id commands) [
  | none ↦ joined_texts commands rows
  | some c ↦
      if is_empty c.command
      then joined_texts commands rows
      else c.command ∷ joined_texts commands rows
]

-- WHERE command = ?
unfoldable pub executions : Bytes → Table Command → List Command
executions text [] = []
executions text ((id, c) ∷ rows) =
    if bytes_eq c.command text then c ∷ executions text rows else executions text rows

-- DELETE … WHERE command = ?
unfoldable pub remove : {V : Type 0} → Bytes → Table V → Table V
remove k [] = []
remove k ((j, v) ∷ t) = if bytes_eq j k then remove k t else (j, v) ∷ remove k t

unfoldable pub starts_before : Command → Command → Bool
starts_before a b = ltb_ℤ a.start_time b.start_time

unfoldable pub is_unfinished : Status → Option ℤ → Bool
is_unfinished Status.running exit = true
is_unfinished Status.orphaned exit = true
is_unfinished _ none = true
is_unfinished _ (some code) = false

module _ {W : Type 0} (weights : Weights W) where
  unfoldable pub count_outcome : Outcome → ℤ → CommandStat W → CommandStat W
  count_outcome Outcome.success start st = record st { succeeded = st.succeeded + 1 }
  count_outcome Outcome.never_ran start st = record st { never_ran = st.never_ran + 1 }
  count_outcome Outcome.interrupted start st = record st { interrupted = st.interrupted + 1 }
  count_outcome Outcome.failure start st = record st {
    failures = st.failures + 1;
    last_failed_at = if ltb_ℤ st.last_failed_at start then start else st.last_failed_at;
  }

  -- The `switch` at the end of the loop of `statFor`.
  unfoldable pub count_result : Command → CommandStat W → CommandStat W
  unfolding is_unfinished count_outcome classify_exit
  count_result c st =
      let unfinished = record st { unfinished = st.unfinished + 1 } in
      if is_unfinished c.status c.exit_code then unfinished else elim c.exit_code [
        | none ↦ unfinished
        | some code ↦ count_outcome (classify_exit code) c.start_time st
      ]

  unfoldable pub count_run : Command → CommandStat W → CommandStat W
  unfolding count_result observe
  count_run c st = count_result c (record st {
    runs = st.runs + 1;
    last_time = if ltb_ℤ st.last_time c.start_time then c.start_time else st.last_time;
    frecency = observe weights st.frecency c.start_time;
    imported_runs = if c.imported then st.imported_runs + 1 else st.imported_runs;
  })

  unfoldable pub count_runs : List Command → CommandStat W → CommandStat W
  unfolding count_run
  count_runs [] st = st
  count_runs (c ∷ rows) st = count_runs rows (count_run c st)

  abbrev pub no_runs : Bytes → CommandStat W
  no_runs text = record {
    command = text;
    runs = 0;
    last_time = pos 0;
    frecency = new_counter weights;
    succeeded = 0;
    failures = 0;
    never_ran = 0;
    interrupted = 0;
    unfinished = 0;
    imported_runs = 0;
    last_failed_at = pos 0;
  }

  unfoldable pub stat_for : Db → Bytes → CommandStat W
  unfolding count_runs executions starts_before
  stat_for db text = count_runs (sort starts_before (executions text db.commands)) (no_runs text)

  -- The texts that a pass looks at: `from` is 0 for a rebuild.
  unfoldable pub changed : Db → ℕ → List Bytes
  unfolding distinct texts_of joined_texts
  changed db from =
      if from == 0
      then distinct (texts_of db.commands)
      else distinct (joined_texts db.commands (drop from db.events))

  unfoldable pub refresh_each : Db → List Bytes → Table (CommandStat W) → Table (CommandStat W)
  unfolding stat_for remove
  refresh_each db [] cache = cache
  refresh_each db (text ∷ texts) cache =
      let st = stat_for db text in
      refresh_each db texts (if st.runs == 0 then remove text cache else upsert text st cache)

  -- How many texts were looked at, the new watermark, and the cache behind the transaction.
  unfoldable pub refresh_command_stats : Db → ℕ → Cache W → ℕ × ℕ × Cache W
  unfolding changed refresh_each
  refresh_command_stats db from cache =
      let texts = changed db from in
      let up_to = length db.events in
      (
        length texts,
        up_to,
        record {
          command_stats = refresh_each db texts (if from == 0 then [] else cache.command_stats);
          watermark = up_to;
        },
      )

  -- ORDER BY last_time DESC LIMIT ?
  unfoldable pub command_stats : Cache W → ℤ → List (CommandStat W)
  command_stats cache limit =
      take (if leb_ℤ limit (pos 0) then 20000 else pos_part limit)
        (sort (λ a b. ltb_ℤ b.last_time a.last_time) (map (λ entry. entry.1) cache.command_stats))

  unfoldable pub command_stat_for : Cache W → Bytes → Option (CommandStat W)
  unfolding lookup
  command_stat_for cache text = lookup text cache.command_stats
