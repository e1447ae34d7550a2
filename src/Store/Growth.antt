-- ===== src/Store/Growth.antt =====
-- internal/store/store.go: an append takes nothing out of the log, and touches one command's row.
use shcr.Base.{
  Bool, true, false, [], ◌∷◌, ◌++◌, ◌≡◌, refl, ◌⊎◌, inl, inr, arith, In, In-append, In-append_left,
  In-append_right,
}
use shcr.Base.Bytes.{Bytes, bytes_eq}
use shcr.Base.Table.{lookup, lookup-upsert}
use shcr.Event.{Event, Codec}
use shcr.Store.Types.{Row, Db}
use shcr.Store.Recompute.{write_row}
use shcr.Store.Log.{Result, ok, bad_payload, has_event, append_event}
use shcr.Store.Materialized.{known, refused, added, append_event-cases}
use shcr.Store.Replay.{has_event-append}
use shcr.Store.Unique.{events, events-append}

pub Result-cases : (r : Result Bool) → (r ≡ bad_payload) ⊎ ((b : Bool) × (r ≡ ok b))
Result-cases bad_payload = inl refl
Result-cases (ok b) = inr (b, refl)

-- The log only grows.
abbrev pub Grows : Db → Db → Type 0
Grows db db' = (id : Bytes) → has_event id db.events ≡ true → has_event id db'.events ≡ true

pub append_event-Grows :
    (codec : Codec) (db : Db) (e : Event) (synced : Bool)
    → Grows db (append_event codec db e synced).0
append_event-Grows codec db e synced id h = elim (append_event-cases codec db e synced) [
  | known _ a ↦ rw a h
  | refused _ _ a ↦ rw a h
  | added c _ _ a ↦ rw a (
      unfold write_row in
      ground (arith, has_event-append id db.events (record { event = e; synced = synced })))
]

-- An event of the log behind an append was there, or is the one that was appended.
pub append_event-In :
    (codec : Codec) (db : Db) (e : Event) (synced : Bool) (a : Event)
    → In a (events (append_event codec db e synced).0.events)
    → In a (events db.events) ⊎ (a ≡ e)
append_event-In codec db e synced a h = elim (append_event-cases codec db e synced) [
  | known _ q ↦ inl (rw q at h)
  | refused _ _ q ↦ inl (rw q at h)
  | added c _ _ q ↦
      let r : Row = record { event = e; synced = synced } in
      let h' : In a (events (db.events ++ r ∷ [])) = unfold write_row in (rw q at h) in
      elim (In-append a (events db.events) (e ∷ []) (rw events-append at h')) [
        | inl old ↦ inl old
        | inr (inl new) ↦ inr new
        | inr (inr q) ↦ absurd q
      ]
]

-- What the log holds it still holds behind an append.
pub append_event-keeps :
    (codec : Codec) (db : Db) (e : Event) (synced : Bool) (a : Event)
    → In a (events db.events)
    → In a (events (append_event codec db e synced).0.events)
append_event-keeps codec db e synced a h = elim (append_event-cases codec db e synced) [
  | known _ q ↦ rw q h
  | refused _ _ q ↦ rw q h
  | added c _ _ q ↦
      rw q (unfold write_row in rw events-append (In-append_left a (events db.events) (e ∷ []) h))
]

-- An event that is inserted is in the log.
pub append_event-adds :
    (codec : Codec) (db : Db) (e : Event) (synced : Bool)
    → (append_event codec db e synced).1 ≡ ok true
    → In e (events (append_event codec db e synced).0.events)
append_event-adds codec db e synced h = elim (append_event-cases codec db e synced) [
  | known _ q ↦ cc (rw q at h)
  | refused _ _ q ↦ cc (rw q at h)
  | added c _ _ q ↦ rw q (
      unfold write_row in
      rw events-append (In-append_right e (events db.events) (e ∷ []) (inl refl)))
]

-- The row of another command stays as it is.
pub append_event-other :
    (codec : Codec) (db : Db) (e : Event) (synced : Bool) (id : Bytes)
    → bytes_eq e.command_id id ≡ false
    → lookup id (append_event codec db e synced).0.commands ≡ lookup id db.commands
append_event-other codec db e synced id differ = elim (append_event-cases codec db e synced) [
  | known _ q ↦ rw q refl
  | refused _ _ q ↦ rw q refl
  | added c _ _ q ↦ rw q (unfold write_row in rw (lookup-upsert, differ) refl)
]

pub append_event-fresh :
    (codec : Codec) (db : Db) (e : Event) (synced : Bool) (id : Bytes)
    → has_event id db.events ≡ false
    → bytes_eq e.event_id id ≡ false
    → has_event id (append_event codec db e synced).0.events ≡ false
append_event-fresh codec db e synced id h differ = elim (append_event-cases codec db e synced) [
  | known _ a ↦ rw a h
  | refused _ _ a ↦ rw a h
  | added c _ _ a ↦ rw a (
      unfold write_row in
      ground (arith, has_event-append id db.events (record { event = e; synced = synced })))
]
