-- ===== src/Store/Recompute.antt =====
-- internal/store/store.go, `recompute`: one command's row from all of its events.
use shcr.Base.{Bool, true, false, ◌&&◌, ◌||◌, Option, none, some, List, [], ◌∷◌, if◌then◌else◌}
use shcr.Base.Bytes.{Bytes, bytes_eq, bytes_lt, is_empty}
use shcr.Base.Int.{pos, ◌-ℤ◌, ltb_ℤ, eqb_ℤ, wrap64}
use shcr.Base.Table.{upsert}
use shcr.Base.Sort.{sort}
use shcr.Event.{Event, EventType, EndPayload, StartPayload, ImportPayload, Codec, redacted_marker}
use shcr.Store.Types.{Command, Status, Row, Db}

-- ORDER BY created_at ASC, event_id ASC
abbrev pub before : Event → Event → Bool
before a b =
    ltb_ℤ a.created_at b.created_at
    || (eqb_ℤ a.created_at b.created_at && bytes_lt a.event_id b.event_id)

-- SELECT … FROM events WHERE command_id = ?
unfoldable pub events_of : Bytes → List Row → List Event
events_of id [] = []
events_of id (r ∷ rows) =
    if bytes_eq r.event.command_id id then r.event ∷ events_of id rows else events_of id rows

-- The variables of the loop over a command's events.
pub record Gathered : Type 0 where
  pub c : Command
  pub ended : Option EndPayload
  pub orphaned : Bool
  pub redacted : Bool
  pub imported : Bool

abbrev blank_command : Bytes → Command
blank_command id = record {
  id = id;
  command = [];
  hostname = [];
  device_id = [];
  session_id = [];
  cwd = [];
  git_branch = none;
  shell = [];
  start_time = pos 0;
  end_time = none;
  exit_code = none;
  duration_ms = none;
  status = Status.running;
  pgid = pos 0;
  is_background = false;
  imported = false;
}

abbrev pub nothing_gathered : Bytes → Gathered
nothing_gathered id = record {
  c = blank_command id;
  ended = none;
  orphaned = false;
  redacted = false;
  imported = false;
}

unfoldable pub apply_start : Command → Bytes → StartPayload → Command
apply_start c device_id p = record c {
  command = p.command;
  hostname = p.hostname;
  device_id = device_id;
  session_id = p.session_id;
  cwd = p.cwd;
  git_branch = if is_empty p.git_branch then c.git_branch else some p.git_branch;
  shell = p.shell;
  start_time = p.start_time;
  pgid = p.pgid;
  is_background = p.is_background;
}

unfoldable pub apply_import : Command → Bytes → ImportPayload → Command
apply_import c device_id p = record c {
  command = p.command;
  hostname = p.hostname;
  device_id = device_id;
  shell = p.shell;
  start_time = p.start_time;
  duration_ms = if ltb_ℤ (pos 0) p.duration_ms then some p.duration_ms else c.duration_ms;
}

-- An end event wins over an orphan guess, and that over an import.
unfoldable pub resolve : Option EndPayload → Bool → Bool → Command → Command
resolve (some p) orphaned imported c = record c {
  end_time = some p.end_time;
  exit_code = some p.exit_code;
  duration_ms =
      if ltb_ℤ (pos 0) c.start_time
      then some (wrap64 (p.end_time -ℤ c.start_time))
      else c.duration_ms;
  status = if eqb_ℤ p.exit_code (pos 0) then Status.completed else Status.failed;
}
resolve none orphaned imported c = record c {
  status =
      if orphaned then Status.orphaned else if imported then Status.completed else Status.running;
}

-- The row behind the loop. `first` is what the fallback query finds.
unfoldable pub settle : Bytes → Gathered → Command
unfolding resolve
settle first g =
    let device = if is_empty g.c.device_id then first else g.c.device_id in
    let c = record g.c { device_id = device; imported = g.imported } in
    let c' = resolve g.ended g.orphaned g.imported c in
    record c' { command = if g.redacted then redacted_marker else c'.command }

-- SELECT device_id FROM events WHERE command_id = ? LIMIT 1; SQLite visits the rows of the index
-- on command_id in the order of their rowids.
unfoldable pub first_device : List Event → Bytes
first_device [] = []
first_device (e ∷ _) = e.device_id

-- The upsert into `commands`, and the index row that follows it.
unfoldable pub write_row : Bytes → Db → Option Command → Db
write_row id db none = db
write_row id db (some c) = record db {
  commands = upsert id c db.commands;
  commands_fts = upsert id c.command db.commands_fts;
}

module _ (codec : Codec) where
  unfoldable pub gather_type : EventType → Gathered → Event → Option Gathered
  unfolding apply_start apply_import
  gather_type EventType.start g e = elim (codec.read_start e.payload) [
    | none ↦ none
    | some p ↦ some (record g { c = apply_start g.c e.device_id p })
  ]
  gather_type EventType.end g e = elim (codec.read_end e.payload) [
    | none ↦ none
    | some p ↦ some (record g { ended = some p })
  ]
  gather_type EventType.import g e = elim (codec.read_import e.payload) [
    | none ↦ none
    | some p ↦ some (record g { c = apply_import g.c e.device_id p; imported = true })
  ]
  gather_type EventType.orphan g e = some (record g { orphaned = true })
  gather_type EventType.redact g e = some (record g { redacted = true })
  gather_type (EventType.other _) g e = some g

  unfoldable pub gather : Gathered → List Event → Option Gathered
  unfolding gather_type
  gather g [] = some g
  gather g (e ∷ es) = elim (gather_type e.type g e) [ none ↦ none | some g' ↦ gather g' es ]

  -- The row of command `id`, from its events in table order: `none` for a payload that cannot be
  -- read, `some none` where there is no event.
  unfoldable pub derive : Bytes → List Event → Option (Option Command)
  unfolding gather settle first_device
  derive id [] = some none
  derive id (e ∷ es) = elim (gather (nothing_gathered id) (sort before (e ∷ es))) [
    | none ↦ none
    | some g ↦ some (some (settle (first_device (e ∷ es)) g))
  ]

  unfoldable pub recompute : Bytes → Db → Option Db
  unfolding derive write_row
  recompute id db = elim (derive id (events_of id db.events)) [
    | none ↦ none
    | some row ↦ some (write_row id db row)
  ]
