-- ===== src/Store/Replay.antt =====
-- Events that arrive again, and events that are refused.
use shcr.Base.{
  Bool, true, false, ◌||◌, Option, none, some, List, [], ◌∷◌, ◌++◌, In, In-append, In-append_right,
  if◌then◌else◌, ◌≡◌, ◌≢◌, refl, inl, inr, arith, Bool-cases, Option-cases,
}
use shcr.Base.Bytes.{Bytes, bytes_eq, bytes_eq_refl}
use shcr.Base.Sort.{sort, In-sort}
use shcr.Event.{Event, EventType, Codec}
use shcr.Store.Types.{Command, Row, Db}
use shcr.Store.Recompute.{
  Gathered, before, events_of, gather_type, gather, derive, nothing_gathered, write_row,
}
use shcr.Store.Log.{ok, bad_payload, has_event, append_event}
use shcr.Store.Materialized.{IsView, known, refused, added, append_event-cases}
use shcr.Store.Delivery.{readable, readable_as, derive_total}
use shcr.Store.Convergence.{derive-cons}

pub has_event-append :
    (id : Bytes) (rows : List Row) (r : Row)
    → has_event id (rows ++ r ∷ []) ≡ (has_event id rows || bytes_eq r.event.event_id id)
unfolding has_event
has_event-append id [] r = ground arith
has_event-append id (q ∷ rows) r = ground (arith, has_event-append id rows r)

module _ (codec : Codec) where
  pub recorded :
      (db : Db) (e : Event) (synced : Bool)
      → (append_event codec db e synced).1 ≢ bad_payload
      → has_event e.event_id (append_event codec db e synced).0.events ≡ true
  recorded db e synced read = elim (append_event-cases codec db e synced) [
    | known old a ↦ rw a old
    | refused _ _ a ↦ absurd (read (rw a refl))
    | added c _ _ a ↦ rw a (
        unfold write_row in
        ground (
          arith,
          has_event-append e.event_id db.events (record { event = e; synced = synced }),
          bytes_eq_refl e.event_id,
        ))
  ]

  -- A second delivery of an event, through either entry point, is reported as known and changes
  -- nothing, not even the column `synced`, unless the first one was refused.
  pub append_twice :
      (db : Db) (e : Event) (first second : Bool)
      → (append_event codec db e first).1 ≢ bad_payload
      → append_event codec (append_event codec db e first).0 e second
        ≡ ((append_event codec db e first).0, ok false)
  unfolding append_event
  append_twice db e first second read = rw (recorded db e first read, append_event)

  gather_type-readable :
      (t : EventType) (g : Gathered) (e : Event)
      → gather_type codec t g e ≢ none
      → readable_as codec t e.payload ≡ true
  unfolding gather_type
  gather_type-readable EventType.start g e h = ground arith
  gather_type-readable _ g e h = ground arith

  gather-readable :
      (es : List Event) (g : Gathered) (a : Event)
      → gather codec g es ≢ none
      → In a es
      → readable codec a ≡ true
  unfolding gather
  gather-readable [] g a h here = absurd here
  gather-readable (e ∷ es) g a h here = elim (Option-cases (gather_type codec e.type g e)) [
    | inl stuck ↦ absurd (h (rw (stuck, gather) refl))
    | inr (g₁, first) ↦ elim here [
      | inl same ↦ rw same (gather_type-readable e.type g e (ground arith))
      | inr there ↦ gather-readable es g₁ a (rw (first, gather) at h) there
    ]
  ]

  derive-readable :
      (id : Bytes) (es : List Event) (a : Event) {r : Option Command}
      → derive codec id es ≡ some r
      → In a es
      → readable codec a ≡ true
  derive-readable id [] a h here = absurd here
  derive-readable id (e ∷ es) a h here =
      let (g, done, _) = derive-cons codec id e es h in
      gather-readable (sort before (e ∷ es)) (nothing_gathered id) a (ground arith)
        ((In-sort before a (e ∷ es)).1 here)

  all_readable :
      (db : Db) (e : Event)
      → IsView codec db
      → readable codec e ≡ true
      → (a : Event) → In a (events_of e.command_id db.events ++ e ∷ [])
      → readable codec a ≡ true
  all_readable db e v fit a here =
      elim (In-append a (events_of e.command_id db.events) (e ∷ []) here) [
        | inl old ↦
            derive-readable e.command_id (events_of e.command_id db.events) a (v.row e.command_id)
              old
        | inr (inl new) ↦ rw new fit
        | inr (inr q) ↦ absurd q
      ]

  -- What an append reports: a known event as not inserted, a new one as inserted if its payload can
  -- be read as its type says, and an error otherwise. Unless it inserts, the store is as it was.
  pub append_report :
      (db : Db) (e : Event) (synced : Bool)
      → IsView codec db
      → ((append_event codec db e synced).1 ≡ (
          if has_event e.event_id db.events
          then ok false
          else if readable codec e
          then ok true
          else bad_payload))
        × ((append_event codec db e synced).1 ≢ ok true → (append_event codec db e synced).0 ≡ db)
  append_report db e synced v = elim (append_event-cases codec db e synced) [
    | known old a ↦ rw (a, old) (refl, λ _. refl)
    | refused fresh unread a ↦ elim (Bool-cases (readable codec e)) [
      | inl fit ↦ absurd (
          derive_total codec e.command_id (events_of e.command_id db.events ++ e ∷ [])
            (all_readable db e v fit) unread)
      | inr unfit ↦ rw (a, fresh, unfit) (refl, λ _. refl)
    ]
    | added c fresh read a ↦
        let fit =
          derive-readable e.command_id (events_of e.command_id db.events ++ e ∷ []) e read
            (In-append_right e (events_of e.command_id db.events) (e ∷ []) (inl refl)) in
        rw (a, fresh, fit) (refl, λ differs. absurd (differs refl))
  ]
