-- ===== src/Store/Materialized.antt =====
-- The rows of `commands` and `commands_fts` are always those that the event log derives.

use shcr.Base.{
  Bool, true, false, Option, none, some, List, [], ◌∷◌, ◌++◌, if◌then◌else◌, ◌≡◌, ◌≢◌, refl, inl,
  inr, arith, Bool-cases,
}
use shcr.Base.Bytes.{Bytes, bytes_eq, bytes_eq_iff, bytes_eq_refl}
use shcr.Base.Table.{lookup, lookup-upsert}
use shcr.Event.{Event, Codec}
use shcr.Store.Types.{Command, Row, Db, empty_db}
use shcr.Store.Recompute.{events_of, derive, write_row, recompute}
use shcr.Store.Log.{ok, bad_payload, has_event, append_event}

pub events_of-append :
    (id : Bytes) (rows : List Row) (r : Row)
    → events_of id (rows ++ r ∷ []) ≡ (
        if bytes_eq r.event.command_id id
        then events_of id rows ++ r.event ∷ []
        else events_of id rows)
unfolding events_of
events_of-append id [] r = ground arith
events_of-append id (q ∷ rows) r = ground (arith, events_of-append id rows r)

-- The searchable text is the row's text, and no row is without it.
abbrev pub text_of : Option Command → Option Bytes
text_of none = none
text_of (some c) = some c.command

module _ (codec : Codec) where
  pub record IsView (db : Db) : Type 0 where
    pub row : (id : Bytes) → derive codec id (events_of id db.events) ≡ some (lookup id db.commands)
    pub text : (id : Bytes) → lookup id db.commands_fts ≡ text_of (lookup id db.commands)

  derive-ne-blank :
      (id : Bytes) (es : List Event) (e : Event) → derive codec id (es ++ e ∷ []) ≢ some none
  unfolding derive
  derive-ne-blank id [] e h = ground arith
  derive-ne-blank id (x ∷ es) e h = ground arith

  pub IsView-empty : IsView empty_db
  unfolding derive events_of lookup
  IsView-empty = record { row = λ id. refl; text = λ id. refl }

  module _ (db : Db) (r : Row) (c : Command) where
    abbrev after_write : Db
    after_write = write_row r.event.command_id (record db { events = db.events ++ r ∷ [] }) (some c)

    write-row_other :
        (id : Bytes)
        → IsView db
        → derive codec r.event.command_id (events_of r.event.command_id (db.events ++ r ∷ []))
          ≡ some (some c)
        → derive codec id (events_of id (db.events ++ r ∷ []))
          ≡ some (lookup id after_write.commands)
    unfolding write_row
    write-row_other id v h = elim (Bool-cases (bytes_eq r.event.command_id id)) [
      | inl same ↦
          let e = (bytes_eq_iff r.event.command_id id).0 same in rw (lookup-upsert, same, ← e) h
      | inr other ↦ rw (lookup-upsert, events_of-append, other) (v.row id)
    ]

    write_row-IsView :
        IsView db
        → derive codec r.event.command_id (events_of r.event.command_id (db.events ++ r ∷ []))
          ≡ some (some c)
        → IsView after_write
    unfolding write_row
    write_row-IsView v h = record {
      row = λ id. write-row_other id v h;
      text = λ id. ground (
        arith,
        lookup-upsert r.event.command_id id c db.commands,
        lookup-upsert r.event.command_id id c.command db.commands_fts,
        v.text id,
      );
    }

  -- What an append does, by the derived row of the event's command.
  pub data AppendOutcome (db : Db) (e : Event) (synced : Bool) : Type 0 where
    known :
        has_event e.event_id db.events ≡ true
        → append_event codec db e synced ≡ (db, ok false)
        → AppendOutcome db e synced
    refused :
        has_event e.event_id db.events ≡ false
        → derive codec e.command_id (events_of e.command_id db.events ++ e ∷ []) ≡ none
        → append_event codec db e synced ≡ (db, bad_payload)
        → AppendOutcome db e synced
    added :
        (c : Command)
        → has_event e.event_id db.events ≡ false
        → derive codec e.command_id (events_of e.command_id db.events ++ e ∷ []) ≡ some (some c)
        → append_event codec db e synced
          ≡ (after_write db (record { event = e; synced = synced }) c, ok true)
        → AppendOutcome db e synced

  own_events :
      (rows : List Row) (e : Event) (synced : Bool)
      → events_of e.command_id (rows ++ record { event = e; synced = synced } ∷ [])
        ≡ events_of e.command_id rows ++ e ∷ []
  own_events rows e synced = rw (events_of-append, bytes_eq_refl)

  append_new :
      (db : Db) (e : Event) (synced : Bool) (row : Option (Option Command))
      → has_event e.event_id db.events ≡ false
      → derive codec e.command_id (events_of e.command_id db.events ++ e ∷ []) ≡ row
      → AppendOutcome db e synced
  append_new db e synced none fresh d =
      refused fresh d
        (unfold append_event recompute in ground (arith, own_events db.events e synced))
  append_new db e synced (some none) fresh d =
      absurd (derive-ne-blank e.command_id (events_of e.command_id db.events) e d)
  append_new db e synced (some (some c)) fresh d =
      added c fresh d
        (unfold append_event recompute in ground (arith, own_events db.events e synced))

  pub append_event-cases : (db : Db) (e : Event) (synced : Bool) → AppendOutcome db e synced
  append_event-cases db e synced = elim (Bool-cases (has_event e.event_id db.events)) [
    | inl old ↦ known old (unfold append_event in rw old)
    | inr fresh ↦ append_new db e synced _ fresh refl
  ]

  -- An event that arrives keeps every row what the log derives, whether it is new or not, whether
  -- it is local or a peer's, and whether it is recorded or refused.
  pub append_event-IsView :
      (db : Db) (e : Event) (synced : Bool) → IsView db → IsView (append_event codec db e synced).0
  append_event-IsView db e synced v = elim (append_event-cases db e synced) [
    | known _ a ↦ rw a v
    | refused _ _ a ↦ rw a v
    | added c _ d a ↦ rw a (
        write_row-IsView db (record { event = e; synced = synced }) c v
          (rw (own_events db.events e synced) d))
  ]
