-- ===== src/Store/Log.antt =====
-- internal/store/store.go: the operations that write the event log, and those that upload reads.
use shcr.Base.{
  ℕ, Bool, true, false, not, ◌&&◌, ◌||◌, none, some, List, [], ◌∷◌, ◌++◌, map, take, length,
  if◌then◌else◌,
}
use shcr.Base.Bytes.{Bytes, bytes_eq}
use shcr.Base.Int.{ℤ, pos, pos_part, leb_ℤ}
use shcr.Base.Sort.{sort}
use shcr.Event.{Event, Codec}
use shcr.Store.Types.{Row, Db}
use shcr.Store.Recompute.{before, recompute}

pub data Result {ℓ} (A : Type ℓ) : Type ℓ where
  ok : A → Result A
  bad_payload : Result A

-- Whether INSERT OR IGNORE finds the primary key taken.
unfoldable pub has_event : Bytes → List Row → Bool
has_event id [] = false
has_event id (r ∷ rows) = bytes_eq r.event.event_id id || has_event id rows

module _ (codec : Codec) where
  -- A payload that cannot be read rolls the transaction back.
  unfoldable pub append_event : Db → Event → Bool → Db × Result Bool
  unfolding has_event recompute
  append_event db e synced =
      if has_event e.event_id db.events
      then (db, ok false)
      else elim (recompute codec e.command_id
          (record db { events = db.events ++ record { event = e; synced = synced } ∷ [] })) [
            | none ↦ (db, bad_payload)
            | some db' ↦ (db', ok true)
          ]

  -- `AppendEvent`
  abbrev pub append_local : Db → Event → Db × Result Bool
  append_local db e = append_event db e false

  -- `InsertRemoteEvent`
  abbrev pub insert_remote_event : Db → Event → Db × Result Bool
  insert_remote_event db e = append_event db e true

-- WHERE synced = 0 AND device_id = ?
unfoldable pub pending : Bytes → List Row → List Event
pending device [] = []
pending device (r ∷ rows) =
    if not r.synced && bytes_eq r.event.device_id device
    then r.event ∷ pending device rows
    else pending device rows

unfoldable pub unsynced_events : Db → Bytes → ℤ → List Event
unfolding pending
unsynced_events db device limit =
    take (if leb_ℤ limit (pos 0) then 500 else pos_part limit)
      (sort before (pending device db.events))

unfoldable pub mark_row : Bytes → Row → Row
mark_row id r = if bytes_eq r.event.event_id id then record r { synced = true } else r

unfoldable pub mark_rows : List Bytes → List Row → List Row
unfolding mark_row
mark_rows [] rows = rows
mark_rows (id ∷ ids) rows = mark_rows ids (map (mark_row id) rows)

unfoldable pub mark_synced : Db → List Bytes → Db
unfolding mark_rows
mark_synced db ids = record db { events = mark_rows ids db.events }

unfoldable pub count_unsynced : Db → Bytes → ℕ
unfolding pending
count_unsynced db device = length (pending device db.events)
