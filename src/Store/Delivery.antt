-- ===== src/Store/Delivery.antt =====
-- Events that reach the store, one after another, from this machine or from peers: which of them
-- the log then holds.
use shcr.Base.{
  Bool, true, false, Option, none, some, List, [], ◌∷◌, ◌++◌, map, In, In-append, In-append_left,
  In-append_right, ◌≡◌, ◌≢◌, refl, ◌⊎◌, inl, inr, ◌↔◌, arith, Bool-cases, Option-cases,
}
use shcr.Base.Bytes.{Bytes, bytes_eq, bytes_eq_iff}
use shcr.Base.Sort.{sort, In-sort}
use shcr.Event.{Event, EventType, Codec}
use shcr.Store.Types.{Row, Db}
use shcr.Store.Recompute.{
  Gathered, before, events_of, write_row, gather_type, gather, derive, nothing_gathered,
}
use shcr.Store.Log.{has_event, append_event}
use shcr.Store.Materialized.{IsView, append_event-IsView, known, refused, added, append_event-cases}
use shcr.Store.Unique.{events, UniqueIds, append_event-UniqueIds, events-append, In-events_of}

-- The flag of a delivery is the column `synced`: false for a local event, true for a peer's.
unfoldable pub deliver : Codec → Db → List (Event × Bool) → Db
deliver codec db [] = db
deliver codec db ((e, synced) ∷ es) = deliver codec (append_event codec db e synced).0 es

abbrev pub delivered : List (Event × Bool) → List Event
delivered es = map (λ (d : Event × Bool). d.0) es

abbrev is_some {ℓ} : {A : Type ℓ} → Option A → Bool
is_some none = false
is_some (some _) = true

abbrev pub readable_as : Codec → EventType → Bytes → Bool
readable_as codec EventType.start p = is_some (codec.read_start p)
readable_as codec EventType.end p = is_some (codec.read_end p)
readable_as codec EventType.import p = is_some (codec.read_import p)
readable_as codec _ p = true

-- The payload can be read as what the event's type says.
abbrev pub readable : Codec → Event → Bool
readable codec e = readable_as codec e.type e.payload

module _ (codec : Codec) where
  gather_type_total :
      (t : EventType) (g : Gathered) (e : Event)
      → readable_as codec t e.payload ≡ true
      → gather_type codec t g e ≢ none
  unfolding gather_type
  gather_type_total EventType.start g e h = ground arith
  gather_type_total _ g e h = ground arith

  pub gather_total :
      (g : Gathered) (es : List Event)
      → ((a : Event) → In a es → readable codec a ≡ true)
      → gather codec g es ≢ none
  unfolding gather
  gather_total g [] h = ground arith
  gather_total g (e ∷ es) h = elim (Option-cases (gather_type codec e.type g e)) [
    | inl stuck ↦ absurd (gather_type_total e.type g e (h e (inl refl)) stuck)
    | inr (g', first) ↦ rw (first, gather) (gather_total g' es (λ a q. h a (inr q)))
  ]

  pub derive_total :
      (id : Bytes) (es : List Event)
      → ((a : Event) → In a es → readable codec a ≡ true)
      → derive codec id es ≢ none
  unfolding derive
  derive_total id [] h = ground arith
  derive_total id (x ∷ es) h =
      let done =
        gather_total (nothing_gathered id) (sort before (x ∷ es))
          (λ a q. h a ((In-sort before a (x ∷ es)).0 q)) in
      ground arith

  pub has_event-In :
      (id : Bytes) (rows : List Row)
      → has_event id rows ≡ true
      → (a : Event) × In a (events rows) × (a.event_id ≡ id)
  unfolding has_event
  has_event-In id [] h = cc
  has_event-In id (r ∷ rows) h = elim (Bool-cases (bytes_eq r.event.event_id id)) [
    | inl here ↦ (r.event, inl refl, (bytes_eq_iff r.event.event_id id).0 here)
    | inr there ↦ let (a, q, e) = has_event-In id rows (rw there at h) in (a, inr q, e)
  ]

  pub deliver-IsView :
      (db : Db) (es : List (Event × Bool)) → IsView codec db → IsView codec (deliver codec db es)
  unfolding deliver
  deliver-IsView db [] v = v
  deliver-IsView db ((e, synced) ∷ es) v =
      deliver-IsView (append_event codec db e synced).0 es (append_event-IsView codec db e synced v)

  pub deliver-UniqueIds :
      (db : Db) (es : List (Event × Bool)) → UniqueIds db → UniqueIds (deliver codec db es)
  unfolding deliver
  deliver-UniqueIds db [] v = v
  deliver-UniqueIds db ((e, synced) ∷ es) v =
      deliver-UniqueIds (append_event codec db e synced).0 es
        (append_event-UniqueIds codec db e synced v)

-- Events among which an id names one event, all of them readable.
pub record Pool (codec : Codec) (pool : List Event) : Type 0 where
  pub one_event : (a b : Event) → In a pool → In b pool → a.event_id ≡ b.event_id → a ≡ b
  pub all_readable : (a : Event) → In a pool → readable codec a ≡ true

module _ (codec : Codec) (pool : List Event) (fair : Pool codec pool) where
  abbrev Within : Db → Type 0
  Within db = (a : Event) → In a (events db.events) → In a pool

  In-append_one : (a e : Event) (l : List Event) → In a (l ++ e ∷ []) ↔ (In a l ⊎ (a ≡ e))
  In-append_one a e l = (
    λ h. elim (In-append a l (e ∷ []) h) [
      | inl q ↦ inl q
      | inr (inl q) ↦ inr q
      | inr (inr q) ↦ absurd q
    ],
    λ h. elim h [
      | inl q ↦ In-append_left a l (e ∷ []) q
      | inr q ↦ In-append_right a l (e ∷ []) (inl q)
    ],
  )

  readable_after :
      (db : Db) (e : Event) (id : Bytes)
      → Within db
      → In e pool
      → (a : Event) → In a (events_of id db.events ++ e ∷ [])
      → readable codec a ≡ true
  readable_after db e id w here a h = elim ((In-append_one a e (events_of id db.events)).0 h) [
    | inl old ↦ fair.all_readable a (w a (In-events_of a id db.events old).0)
    | inr new ↦ fair.all_readable a (rw new here)
  ]

  append_event-In :
      (db : Db) (e : Event) (synced : Bool) (a : Event)
      → Within db
      → In e pool
      → In a (events (append_event codec db e synced).0.events)
        ↔ (In a (events db.events) ⊎ (a ≡ e))
  append_event-In db e synced a w here = elim (append_event-cases codec db e synced) [
    | known old eq ↦
        let (b, there, id) = has_event-In codec e.event_id db.events old in
        let recorded : In e (events db.events) =
          rw (← fair.one_event b e (w b there) here id) there in
        rw eq (λ h. inl h, λ h. elim h [ inl q ↦ q | inr same ↦ rw same recorded ])
    | refused _ unread _ ↦ absurd (
        derive_total codec e.command_id (events_of e.command_id db.events ++ e ∷ [])
          (readable_after db e e.command_id w here) unread)
    | added c _ _ eq ↦
        rw eq (unfold write_row in rw events-append (In-append_one a e (events db.events)))
  ]

  -- The log holds what it held and what was delivered.
  pub deliver-In :
      (db : Db) (es : List (Event × Bool)) (a : Event)
      → Within db
      → ((b : Event) → In b (delivered es) → In b pool)
      → In a (events (deliver codec db es).events) ↔ (In a (events db.events) ⊎ In a (delivered es))
  unfolding deliver
  deliver-In db [] a w h = (λ q. inl q, λ q. elim q [ inl l ↦ l | inr r ↦ absurd r ])
  deliver-In db ((e, synced) ∷ es) a w h =
      let db' = (append_event codec db e synced).0 in
      let one = λ (b : Event). append_event-In db e synced b w (h e (inl refl)) in
      let within : Within db' =
        λ b q. elim ((one b).0 q) [ inl old ↦ w b old | inr new ↦ rw new (h e (inl refl)) ] in
      let rest = deliver-In db' es a within (λ b q. h b (inr q)) in
      (
        λ q. elim (rest.0 q) [
          | inl l ↦ elim ((one a).0 l) [ inl old ↦ inl old | inr new ↦ inr (inl new) ]
          | inr r ↦ inr (inr r)
        ],
        λ q. elim q [
          | inl old ↦ rest.1 (inl ((one a).1 (inl old)))
          | inr (inl new) ↦ rest.1 (inl ((one a).1 (inr new)))
          | inr (inr r) ↦ rest.1 (inr r)
        ],
      )
