-- ===== src/Store/Dashboard.antt =====
-- internal/store/store.go, the dashboard: the summary, and how a reader follows the log.
use shcr.Base.{
  ℕ, suc, ◌+◌, ◌-◌, ◌*◌, ◌/◌, Bool, true, false, not, ◌&&◌, List, [], ◌∷◌, if◌then◌else◌, map,
  length, take, drop, ltb,
}
use shcr.Base.Bytes.{Bytes, bytes_eq, bytes_lt, is_empty}
use shcr.Base.Int.{ℤ, pos, negsuc, ◌+ℤ◌, ◌-ℤ◌, leb_ℤ, eqb_ℤ}
use shcr.Base.Sort.{sort}
use shcr.Base.Table.{Table}
use shcr.Store.Types.{Command, Status, Row, Db}
use shcr.Store.Stats.{has_text, distinct, starts_before}
use shcr.Store.Queries.{rows_of, filter}

-- count(*) WHERE …
unfoldable pub count : {A : Type 0} → (A → Bool) → List A → ℕ
count wanted [] = 0
count wanted (x ∷ xs) = let n = count wanted xs in if wanted x then suc n else n

pub record HourBucket : Type 0 where
  pub hour : ℤ
  pub count : ℕ

-- `Stats` of the store.
pub record Summary : Type 0 where
  pub total : ℕ
  pub today : ℕ
  pub running : ℕ
  pub completed : ℕ
  pub failed : ℕ
  pub orphaned : ℕ
  pub hourly : List HourBucket

abbrev pub hour_millis : ℕ
hour_millis = 3600000

-- `Truncate(time.Hour)` on milliseconds since 1970, an instant that is a full hour.
unfoldable pub truncate_hour : ℤ → ℤ
truncate_hour (pos n) = pos (n / hour_millis * hour_millis)
truncate_hour (negsuc n) = negsuc ((n / hour_millis + 1) * hour_millis - 1)

-- `counts[h]`, for the rows from `start` on.
unfoldable pub bucket_count : Db → ℤ → ℤ → ℕ
unfolding count truncate_hour
bucket_count db start hour =
    count (λ (c : Command). leb_ℤ start c.start_time && eqb_ℤ (truncate_hour c.start_time) hour)
      (rows_of db.commands)

-- The buckets for the hours from `i` on; `rounds` of them.
unfoldable pub buckets : ℕ → ℕ → Db → ℤ → List HourBucket
unfolding bucket_count
buckets ℕ.zero i db start = []
buckets (suc rounds) i db start =
    let hour = start +ℤ pos (i * hour_millis) in
    record { hour = hour; count = bucket_count db start hour } ∷ buckets rounds (i + 1) db start

abbrev same_status : Status → Status → Bool
same_status Status.running Status.running = true
same_status Status.completed Status.completed = true
same_status Status.failed Status.failed = true
same_status Status.orphaned Status.orphaned = true
same_status _ _ = false

abbrev pub count_status : Db → Status → ℕ
count_status db s = count (λ (c : Command). same_status s c.status) (rows_of db.commands)

-- `now` and the midnight before it in local time, in milliseconds.
unfoldable pub stats : Db → ℤ → ℤ → Summary
unfolding count buckets truncate_hour
stats db now midnight = record {
  total = length db.commands;
  today = count (λ (c : Command). leb_ℤ midnight c.start_time) (rows_of db.commands);
  running = count_status db Status.running;
  completed = count_status db Status.completed;
  failed = count_status db Status.failed;
  orphaned = count_status db Status.orphaned;
  hourly = buckets 24 0 db (truncate_hour now -ℤ pos (23 * hour_millis));
}

-- The loop of `EventsSince` with the ids that were seen.
unfoldable pub ids_behind : List Bytes → List Row → List Bytes
unfolding has_text
ids_behind seen [] = []
ids_behind seen (r ∷ rows) =
    let id = r.event.command_id in
    let known = ids_behind seen rows in
    let first = id ∷ ids_behind (id ∷ seen) rows in if has_text id seen then known else first

-- The rowid of an event is its place in the log, from 1.
unfoldable pub events_since : Db → ℕ → List Bytes × ℕ
unfolding ids_behind
events_since db row_id =
    let rows = take 500 (drop row_id db.events) in (ids_behind [] rows, row_id + length rows)

unfoldable pub max_event_row_id : Db → ℕ
max_event_row_id db = length db.events

-- GROUP BY device_id
unfoldable pub commands_per_device : Db → Table ℕ
unfolding distinct count
commands_per_device db =
    let rows = rows_of db.commands in
    map (λ id. (id, count (λ (c : Command). bytes_eq c.device_id id) rows))
      (distinct (map (λ (c : Command). c.device_id) rows))

pub record RunInfo : Type 0 where
  pub ordinal : ℕ
  pub total : ℕ

-- row_number() of the row with this id, from 1.
unfoldable pub row_number : Bytes → List Command → ℕ
row_number id [] = 0
row_number id (c ∷ rows) = let n = row_number id rows in if bytes_eq c.id id then 1 else suc n

unfoldable pub run_info : List Command → Command → RunInfo
unfolding filter row_number starts_before
run_info rows c =
    let same = filter (λ (d : Command). bytes_eq d.command c.command) rows in
    record { ordinal = row_number c.id (sort starts_before same); total = length same }

-- Only repeats are kept.
unfoldable pub repeats : List Command → List Command → Table RunInfo
unfolding run_info
repeats rows [] = []
repeats rows (c ∷ left) =
    let info = run_info rows c in
    let rest = repeats rows left in if ltb 1 info.total then (c.id, info) ∷ rest else rest

unfoldable pub runs_today : Db → ℤ → Table RunInfo
unfolding filter repeats
runs_today db since =
    let rows =
      filter (λ (c : Command). leb_ℤ since c.start_time && not (is_empty c.command))
        (rows_of db.commands) in
    repeats rows rows

unfoldable pub hostnames : Db → List Bytes
unfolding filter distinct
hostnames db = sort bytes_lt (
    distinct (
      map (λ (c : Command). c.hostname)
        (filter (λ (c : Command). not (is_empty c.hostname)) (rows_of db.commands))))
