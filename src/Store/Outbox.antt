-- ===== src/Store/Outbox.antt =====
-- The events that wait for upload: what puts them there, and what takes them out.
use shcr.Base.{
  Bool, true, false, not, ◌&&◌, ◌||◌, List, [], ◌∷◌, ◌++◌, map, append-nil, if◌then◌else◌, ◌≡◌,
  refl, sym, ap, ◌∙◌, arith,
}
use shcr.Base.Bytes.{Bytes, bytes_eq}
use shcr.Event.{Event, Codec}
use shcr.Store.Types.{Row, Db}
use shcr.Store.Recompute.{write_row}
use shcr.Store.Log.{ok, append_event, pending, mark_row, mark_rows, mark_synced}
use shcr.Store.Materialized.{known, refused, added, append_event-cases}
use shcr.Store.Unique.{events}

pending-append :
    (device : Bytes) (rows : List Row) (r : Row)
    → pending device (rows ++ r ∷ [])
      ≡ pending device rows
        ++ (if not r.synced && bytes_eq r.event.device_id device then r.event ∷ [] else [])
unfolding pending
pending-append device [] r = ground arith
pending-append device (q ∷ rows) r = ground (arith, pending-append device rows r)

-- What a peer sent never waits for upload here, whoever's event it is.
pub remote_never_pending :
    (codec : Codec) (db : Db) (e : Event) (device : Bytes)
    → pending device (append_event codec db e true).0.events ≡ pending device db.events
remote_never_pending codec db e device = elim (append_event-cases codec db e true) [
  | known _ a ↦ rw a refl
  | refused _ _ a ↦ rw a refl
  | added c _ _ a ↦ rw a (
      unfold write_row in
      pending-append device db.events (record { event = e; synced = true })
      ∙ append-nil (pending device db.events))
]

-- A local event that is inserted waits for upload under its device, behind those that wait already,
-- and under no other.
pub local_pending :
    (codec : Codec) (db : Db) (e : Event) (device : Bytes)
    → (append_event codec db e false).1 ≡ ok true
    → pending device (append_event codec db e false).0.events
      ≡ pending device db.events ++ (if bytes_eq e.device_id device then e ∷ [] else [])
local_pending codec db e device h = elim (append_event-cases codec db e false) [
  | known _ a ↦ cc (rw a at h)
  | refused _ _ a ↦ cc (rw a at h)
  | added c _ _ a ↦
      rw a
        (unfold write_row in pending-append device db.events (record { event = e; synced = false }))
]

unfoldable pub has_id : Bytes → List Bytes → Bool
has_id id [] = false
has_id id (x ∷ ids) = bytes_eq id x || has_id id ids

-- The events whose ids are not listed.
unfoldable pub without_ids : List Bytes → List Event → List Event
unfolding has_id
without_ids ids [] = []
without_ids ids (e ∷ es) =
    if has_id e.event_id ids then without_ids ids es else e ∷ without_ids ids es

without_ids-one :
    (id : Bytes) (ids : List Bytes) (es : List Event)
    → without_ids ids (without_ids (id ∷ []) es) ≡ without_ids (id ∷ ids) es
unfolding without_ids
without_ids-one id ids [] = refl
without_ids-one id ids (e ∷ es) = ground (arith, without_ids-one id ids es)

without_ids-nil : (es : List Event) → without_ids [] es ≡ es
unfolding without_ids
without_ids-nil [] = refl
without_ids-nil (e ∷ es) = ap (◌∷◌ e) (without_ids-nil es)

pending-mark_row :
    (device id : Bytes) (rows : List Row)
    → pending device (map (mark_row id) rows) ≡ without_ids (id ∷ []) (pending device rows)
unfolding pending mark_row without_ids
pending-mark_row device id [] = refl
pending-mark_row device id (r ∷ rows) = ground (arith, pending-mark_row device id rows)

pending-mark_rows :
    (device : Bytes) (ids : List Bytes) (rows : List Row)
    → pending device (mark_rows ids rows) ≡ without_ids ids (pending device rows)
unfolding mark_rows
pending-mark_rows device [] rows = sym (without_ids-nil (pending device rows))
pending-mark_rows device (id ∷ ids) rows =
    pending-mark_rows device ids (map (mark_row id) rows)
    ∙ ap (without_ids ids) (pending-mark_row device id rows)
    ∙ without_ids-one id ids (pending device rows)

events-mark_row : (id : Bytes) (rows : List Row) → events (map (mark_row id) rows) ≡ events rows
unfolding mark_row
events-mark_row id [] = refl
events-mark_row id (r ∷ rows) = ground (arith, events-mark_row id rows)

pub events-mark_rows :
    (ids : List Bytes) (rows : List Row) → events (mark_rows ids rows) ≡ events rows
unfolding mark_rows
events-mark_rows [] rows = refl
events-mark_rows (id ∷ ids) rows =
    events-mark_rows ids (map (mark_row id) rows) ∙ events-mark_row id rows

-- `MarkSynced` takes from the events that wait exactly those that it names, and leaves the log's
-- events, the rows and the index as they are.
pub mark_synced_exact :
    (db : Db) (ids : List Bytes) (device : Bytes)
    → (pending device (mark_synced db ids).events ≡ without_ids ids (pending device db.events))
      × (events (mark_synced db ids).events ≡ events db.events)
      × ((mark_synced db ids).commands ≡ db.commands)
      × ((mark_synced db ids).commands_fts ≡ db.commands_fts)
unfolding mark_synced
mark_synced_exact db ids device =
    (pending-mark_rows device ids db.events, events-mark_rows ids db.events, refl, refl)
