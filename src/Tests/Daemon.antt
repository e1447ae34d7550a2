-- ===== src/Tests/Daemon.antt =====
-- A daemon with two lines in its spool and a command whose shell is gone. A line is the one letter
-- of an event's identifier and the text of a start, or `!` and a nudge.
use shcr.Base.{
  ℕ, zero, suc, ◌≤◌, ◌<◌, true, false, Option, none, some, List, [], ◌∷◌, ◌++◌, In, ◌≡◌, refl, ◌⊎◌,
  inl, inr, arith, ap, if◌then◌else◌, ◌==◌, replicate,
}
use shcr.Base.Bytes.{Bytes, codes, bytes_eq, bytes_lt, has_prefix}
use shcr.Base.Int.{pos, wrap64, ◌-ℤ◌}
use shcr.Base.Sort.{sort, insert}
use shcr.Base.Table.{lookup, upsert}
use shcr.Event.{Event, EventType}
use shcr.Redact.{
  secret_span, label_span, value_group, replace_loop, replace_group, skip_rule, redact_loop,
  outcome, apply,
}
use shcr.Histfile.Scanner.{scan_within, scanned_within, drop_cr}
use shcr.Histfile.Text.{split_lines}
use shcr.Store.Types.{Command, Status, Db, empty_db}
use shcr.Store.Recompute.{events_of, recompute, gather, derive}
use shcr.Store.Log.{append_event, has_event}
use shcr.Store.Materialized.{IsView, IsView-empty}
use shcr.Store.Unique.{events}
use shcr.Store.Delivery.{deliver, deliver-IsView}
use shcr.Store.Rows.{Over}
use shcr.Store.Queries.{live_commands, filter, is_running}
use shcr.Daemon.{
  spool_line_limit, Json, State, Disk, OrphanDraw, Probe, handle_conn, drain_lines, drain_file,
  drain_spool, ingest, incoming, incoming_json, incoming_event, scrub, scrub_verdict, take_in,
  trigger, is_left, sweep_orphans,
}
use shcr.Daemon.Crash.{Crashed, Crashes, drain_spool_recovers}
use shcr.Daemon.Scrub.{Clean, ReadsBack, handle_conn-Clean}
use shcr.Daemon.Sweep.{sweep_orphans-Over}
use shcr.Daemon.Spared.{sweep_orphans_spares}
use shcr.Store.Keyed.{Keyed}
use shcr.Tests.Redact.{two_letters}
use shcr.Tests.Store.{toy, start_of, event, started}

abbrev control_of : Bytes → Option Bytes
control_of [] = none
control_of (c ∷ text) = if c == b'!' then some text else some []

abbrev event_of : Bytes → Option Event
event_of [] = none
event_of (c ∷ text) = some (event EventType.start (c ∷ []) 7 text)

abbrev json : Json
json = record { read_control = control_of; read_event = event_of }

abbrev idle : State
idle = record { db = empty_db; triggers = [] }

abbrev two_lines : Bytes
two_lines = codes "als" ++ 10 ∷ codes "bmake" ++ 10 ∷ []

abbrev disk : Disk
disk = record { spool = some two_lines; draining = none }

abbrev halfway : Disk
halfway = record { spool = none; draining = some two_lines }

lines_read : scan_within spool_line_limit two_lines ≡ (codes "als" ∷ codes "bmake" ∷ [], false)
unfolding scan_within scanned_within split_lines drop_cr
lines_read = refl

half :
    Crashes json toy [] disk idle halfway (drain_lines json toy [] (codes "als" ∷ []) idle 0).0.db
unfolding drain_file
half = Crashes.once (
    Crashed.in_fresh two_lines (codes "als" ∷ []) (codes "bmake" ∷ []) refl refl
      (ap (λ r. r.0) lines_read))

drain_spool_recovers_example :
    ((drain_spool json toy [] halfway (record {
      db = (drain_lines json toy [] (codes "als" ∷ []) idle 0).0.db;
      triggers = [];
    })).1.db
      ≡ (drain_spool json toy [] disk idle).1.db)
    × ((drain_spool json toy [] halfway (record {
      db = (drain_lines json toy [] (codes "als" ∷ []) idle 0).0.db;
      triggers = [];
    })).0
        ≡ record { spool = none; draining = none })
    × ((drain_spool json toy [] halfway (record {
      db = (drain_lines json toy [] (codes "als" ∷ []) idle 0).0.db;
      triggers = [];
    })).3
        ≡ false)
unfolding scan_within
drain_spool_recovers_example =
    drain_spool_recovers json toy [] disk idle halfway
      (drain_lines json toy [] (codes "als" ∷ []) idle 0).0.db [] (IsView-empty toy) half

-- `t=` is followed by a value that is taken out.
toy_back : ReadsBack json toy (two_letters ∷ [])
toy_back payload p h = let same : start_of payload ≡ p = cc h in rw (← same) refl

abbrev sent : List Bytes
sent = codes "at=ab" ∷ []

abbrev cleaned : Event
cleaned = event EventType.start (codes "a") 7 (codes "t=[REDACTED]")

cleaned_arrives : In cleaned (events (handle_conn json toy (two_letters ∷ []) sent idle).db.events)
unfolding handle_conn ingest incoming incoming_json incoming_event scrub scrub_verdict take_in
    trigger apply skip_rule redact_loop outcome replace_group replace_loop secret_span label_span
    value_group has_prefix append_event recompute gather derive sort insert lookup upsert bytes_eq
    bytes_lt events_of
cleaned_arrives = inl refl

handle_conn-Clean_example :
    In cleaned (events empty_db.events) ⊎ Clean json toy (two_letters ∷ []) cleaned
handle_conn-Clean_example =
    handle_conn-Clean json toy (two_letters ∷ []) sent idle cleaned toy_back cleaned_arrives

abbrev draw : ℕ → OrphanDraw
draw n = record { id = replicate (suc n) 7; detected_at = pos 9000; created_at = pos 9000 }

abbrev gone : Probe
gone = record { shell_alive = λ _. false; orphan_payload = λ _. []; draws = draw }

abbrev running_db : Db
running_db = deliver toy empty_db ((started, false) ∷ [])

fresh : (m : ℕ) → 0 ≤ m → has_event (gone.draws m).id running_db.events ≡ false
unfolding deliver append_event recompute gather derive sort insert lookup upsert bytes_eq bytes_lt
    events_of has_event
fresh m h = refl

apart : (i j : ℕ) → i < j → bytes_eq (gone.draws i).id (gone.draws j).id ≡ false
unfolding bytes_eq
apart i zero h = absurd (omega arith)
apart zero (suc j) h = refl
apart (suc i) (suc j) h = apart i j (omega arith)

-- The row of `started`.
abbrev making : Command
making = record {
  id = codes "c";
  command = codes "make";
  hostname = codes "box";
  device_id = codes "laptop";
  session_id = codes "s1";
  cwd = codes "/";
  git_branch = none;
  shell = codes "zsh";
  start_time = pos 1000;
  end_time = none;
  exit_code = none;
  duration_ms = none;
  status = Status.running;
  pgid = pos 42;
  is_background = false;
  imported = false;
}

running-IsView : IsView toy running_db
running-IsView = deliver-IsView toy empty_db ((started, false) ∷ []) (IsView-empty toy)

making_live : In making (live_commands running_db (codes "laptop"))
unfolding deliver append_event recompute gather derive sort insert lookup upsert bytes_eq bytes_lt
    events_of has_event live_commands filter is_running
making_live = inl refl

sweep_orphans-Over_example :
    ((sweep_orphans toy gone (codes "laptop") (pos 9000) running_db).2 ≡ false)
    × Over (
        lookup
          (codes "c")
          (sweep_orphans toy gone (codes "laptop") (pos 9000) running_db).0.commands)
unfolding is_left wrap64 ◌-ℤ◌
sweep_orphans-Over_example =
    sweep_orphans-Over toy gone (codes "laptop") (pos 9000) running_db making running-IsView
      (fresh, apart) making_live refl

abbrev there : Probe
there = record gone { shell_alive = λ _. true }

running-Keyed : Keyed running_db.commands
unfolding deliver append_event recompute gather derive sort insert lookup upsert bytes_eq bytes_lt
    events_of has_event
running-Keyed = (refl, tt, tt)

making_there : lookup (codes "c") running_db.commands ≡ some making
unfolding deliver append_event recompute gather derive sort insert lookup upsert bytes_eq bytes_lt
    events_of has_event
making_there = refl

-- The shell of the command that runs is there.
sweep_orphans_spares_example :
    lookup (codes "c") (sweep_orphans toy there (codes "laptop") (pos 9000) running_db).0.commands
    ≡ some making
sweep_orphans_spares_example =
    sweep_orphans_spares toy there (codes "laptop") (pos 9000) running_db making running-Keyed
      making_there (inr (inr (inr (inr refl))))
