-- ===== src/Tests/Store.antt =====
-- The event log with a start, an end, an orphan and a redaction, in a toy payload format.
use shcr.Base.{
  ℕ, ◌-◌, Bool, true, false, Option, none, some, List, [], ◌∷◌, ◌++◌, In, ◌≡◌, ◌≢◌, refl, inl, inr,
  ◌↔◌, arith, if◌then◌else◌,
}
use shcr.Base.Bytes.{Bytes, codes, bytes_eq, bytes_lt, is_empty}
use shcr.Base.Int.{pos, wrap64, ◌-ℤ◌}
use shcr.Base.Sort.{sort, insert}
use shcr.Base.Table.{lookup, upsert}
use shcr.Event.{Event, EventType, Codec, StartPayload, EndPayload, ImportPayload, redacted_marker}
use shcr.Store.Types.{Command, Status, Db, empty_db}
use shcr.Store.Recompute.{before, events_of, recompute, gather, derive}
use shcr.Store.Log.{ok, bad_payload, append_event, has_event, pending, mark_synced}
use shcr.Store.Materialized.{IsView, IsView-empty, text_of, append_event-IsView}
use shcr.Store.Unique.{events}
use shcr.Store.Delivery.{deliver, delivered, readable, Pool, deliver-IsView}
use shcr.Store.Convergence.{but_device, converge_but_device, converge}
use shcr.Store.Ends.{LastEnd, ResultOf, end_wins}
use shcr.Store.Rows.{redact_hides}
use shcr.Store.Replay.{append_twice, append_report}
use shcr.Store.Outbox.{remote_never_pending, local_pending, mark_synced_exact, without_ids}

abbrev pub start_of : Bytes → StartPayload
start_of p = record {
  command = p;
  hostname = codes "box";
  session_id = codes "s1";
  cwd = codes "/";
  git_branch = [];
  shell = codes "zsh";
  start_time = pos 1000;
  pgid = pos 42;
  is_background = false;
}

abbrev pub import_of : Bytes → ImportPayload
import_of p = record {
  command = p;
  hostname = codes "box";
  shell = codes "bash";
  start_time = pos 5;
  approximate_time = true;
  duration_ms = pos 0;
  source = codes "f";
}

abbrev pub end_of : Bytes → Option EndPayload
end_of [] = none
end_of (c ∷ _) = some (record { end_time = pos 3500; exit_code = pos (c - b'0') })

-- The text of a start is its whole payload, and the digit of an end its exit code.
abbrev pub toy : Codec
toy = record {
  read_start = λ p. some (start_of p);
  read_end = end_of;
  read_import = λ p. some (import_of p);
  write_start = λ p. p.command;
  write_import = λ p. p.command;
}

abbrev pub event : EventType → Bytes → ℕ → Bytes → Event
event t id at payload = record {
  event_id = id;
  command_id = codes "c";
  device_id = codes "laptop";
  type = t;
  payload = payload;
  created_at = pos at;
}

abbrev pub started : Event
started = event EventType.start (codes "e1") 1 (codes "make")

abbrev finished : Event
finished = event EventType.end (codes "e2") 2 (codes "2")

abbrev orphaned : Event
orphaned = event EventType.orphan (codes "e3") 3 []

abbrev redacted : Event
redacted = event EventType.redact (codes "e4") 4 []

abbrev unreadable : Event
unreadable = event EventType.end (codes "e5") 5 []

abbrev pub in_order : List (Event × Bool)
in_order = (started, false) ∷ (finished, false) ∷ (orphaned, false) ∷ []

abbrev out_of_order : List (Event × Bool)
out_of_order = (orphaned, true) ∷ (finished, true) ∷ (finished, false) ∷ (started, true) ∷ []

abbrev pub log_db : Db
log_db = deliver toy empty_db in_order

status_of : Option Command → Option Status
status_of none = none
status_of (some c) = some c.status

in_order_status :
    status_of (lookup (codes "c") (deliver toy empty_db in_order).commands) ≡ some Status.failed
unfolding status_of deliver append_event recompute gather derive sort insert lookup upsert bytes_eq
    bytes_lt events_of wrap64 ◌-ℤ◌
in_order_status = refl

one_event_in_order :
    (a b : Event)
    → In a (delivered in_order)
    → In b (delivered in_order)
    → a.event_id ≡ b.event_id
    → a ≡ b
one_event_in_order a b ha hb e = ground arith

all_read : (a : Event) → In a (delivered in_order) → readable toy a ≡ true
all_read a h = ground arith

pool : Pool toy (delivered in_order)
pool = record { one_event = one_event_in_order; all_readable = all_read }

same_events : (a : Event) → In a (delivered in_order) ↔ In a (delivered out_of_order)
same_events a = (
  λ h. elim h [
    | inl x ↦ inr (inr (inr (inl x)))
    | inr (inl x) ↦ inr (inl x)
    | inr (inr (inl x)) ↦ inl x
    | inr (inr (inr x)) ↦ absurd x
  ],
  λ h. elim h [
    | inl x ↦ inr (inr (inl x))
    | inr (inl x) ↦ inr (inl x)
    | inr (inr (inl x)) ↦ inr (inl x)
    | inr (inr (inr (inl x))) ↦ inl x
    | inr (inr (inr (inr x))) ↦ absurd x
  ],
)

named : (a : Event) → In a (delivered in_order) → is_empty a.device_id ≡ false
named a h = ground arith

view : IsView toy log_db
view = deliver-IsView toy empty_db in_order (IsView-empty toy)

append_event-IsView_example : IsView toy (append_event toy log_db redacted false).0
append_event-IsView_example = append_event-IsView toy log_db redacted false view

converge_but_device_example :
    but_device (lookup (codes "c") (deliver toy empty_db in_order).commands)
    ≡ but_device (lookup (codes "c") (deliver toy empty_db out_of_order).commands)
converge_but_device_example =
    converge_but_device toy in_order out_of_order pool same_events (codes "c")

converge_example :
    lookup (codes "c") (deliver toy empty_db in_order).commands
    ≡ lookup (codes "c") (deliver toy empty_db out_of_order).commands
converge_example = converge toy in_order out_of_order pool same_events named started (inl refl) refl

log_has_end : In finished (events_of (codes "c") log_db.events)
unfolding deliver append_event recompute gather derive sort insert lookup upsert bytes_eq bytes_lt
    events_of wrap64 ◌-ℤ◌
log_has_end = inr (inl refl)

end_wins_example :
    (l : LastEnd toy (sort before (events_of (codes "c") log_db.events))) × ResultOf l.payload
      (lookup (codes "c") log_db.commands)
end_wins_example = end_wins toy log_db finished view log_has_end refl

abbrev redacted_db : Db
redacted_db = deliver toy empty_db ((redacted, false) ∷ (started, true) ∷ [])

log_has_redact : In redacted (events_of (codes "c") redacted_db.events)
unfolding deliver append_event recompute gather derive sort insert lookup upsert bytes_eq bytes_lt
    events_of wrap64 ◌-ℤ◌
log_has_redact = inl refl

redact_hides_example :
    (text_of (lookup (codes "c") redacted_db.commands) ≡ some redacted_marker)
    × (lookup (codes "c") redacted_db.commands_fts ≡ some redacted_marker)
redact_hides_example =
    redact_hides toy redacted_db redacted
      (deliver-IsView toy empty_db ((redacted, false) ∷ (started, true) ∷ []) (IsView-empty toy))
      log_has_redact refl

first_append : (append_event toy log_db redacted false).1 ≢ bad_payload
unfolding deliver append_event recompute gather derive sort insert lookup upsert bytes_eq bytes_lt
    events_of wrap64 ◌-ℤ◌
first_append = ground arith

append_twice_example :
    append_event toy (append_event toy log_db redacted false).0 redacted true
    ≡ ((append_event toy log_db redacted false).0, ok false)
append_twice_example = append_twice toy log_db redacted false true first_append

append_report_example :
    ((append_event toy log_db unreadable false).1 ≡ (
      if has_event (codes "e5") log_db.events
      then ok false
      else if readable toy unreadable
      then ok true
      else bad_payload))
    × ((append_event toy log_db unreadable false).1 ≢ ok true
        → (append_event toy log_db unreadable false).0 ≡ log_db)
append_report_example = append_report toy log_db unreadable false view

refused_example : append_event toy log_db unreadable false ≡ (log_db, bad_payload)
unfolding deliver append_event recompute gather derive sort insert lookup upsert bytes_eq bytes_lt
    events_of wrap64 ◌-ℤ◌
refused_example = refl

remote_never_pending_example :
    pending (codes "laptop") (append_event toy log_db redacted true).0.events
    ≡ pending (codes "laptop") log_db.events
remote_never_pending_example = remote_never_pending toy log_db redacted (codes "laptop")

inserted : (append_event toy log_db redacted false).1 ≡ ok true
unfolding deliver append_event recompute gather derive sort insert lookup upsert bytes_eq bytes_lt
    events_of wrap64 ◌-ℤ◌
inserted = refl

local_pending_example :
    pending (codes "laptop") (append_event toy log_db redacted false).0.events
    ≡ pending (codes "laptop") log_db.events
      ++ (if bytes_eq (codes "laptop") (codes "laptop") then redacted ∷ [] else [])
local_pending_example = local_pending toy log_db redacted (codes "laptop") inserted

mark_synced_exact_example :
    (pending (codes "laptop") (mark_synced log_db (codes "e1" ∷ [])).events
      ≡ without_ids (codes "e1" ∷ []) (pending (codes "laptop") log_db.events))
    × (events (mark_synced log_db (codes "e1" ∷ [])).events ≡ events log_db.events)
    × ((mark_synced log_db (codes "e1" ∷ [])).commands ≡ log_db.commands)
    × ((mark_synced log_db (codes "e1" ∷ [])).commands_fts ≡ log_db.commands_fts)
mark_synced_exact_example = mark_synced_exact log_db (codes "e1" ∷ []) (codes "laptop")
