-- ===== src/Store/Unique.antt =====
-- `event_id` is a primary key: no two rows of the event log share one, so that ORDER BY
-- created_at, event_id tells all of them apart.
use shcr.Base.{
  Bool, true, false, List, [], ◌∷◌, ◌++◌, map, In, All, All-append, if◌then◌else◌, ◌≡◌, refl, ap,
  ◌∙◌, ◌⊎◌, inl, inr, arith, Bool-cases,
}
use shcr.Base.Bytes.{Bytes, bytes_eq, bytes_eq_iff, bytes_lt_irrefl, bytes_lt_trans, bytes_lt_total}
use shcr.Base.Sort.{Apart, AllApart, StrictOrder}
use shcr.Event.{Event, Codec}
use shcr.Store.Types.{Row, Db}
use shcr.Store.Recompute.{before, events_of, write_row}
use shcr.Store.Log.{has_event, append_event}
use shcr.Store.Materialized.{known, refused, added, append_event-cases}

before_irrefl : (a : Event) → before a a ≡ false
before_irrefl a = ground (arith, bytes_lt_irrefl a.event_id)

before_trans : (a b c : Event) → before a b ≡ true → before b c ≡ true → before a c ≡ true
before_trans a b c h k = ground (arith, bytes_lt_trans a.event_id b.event_id c.event_id)

pub before_order : StrictOrder before
before_order = record { irrefl = before_irrefl; trans = before_trans }

pub before-Apart : (a b : Event) → bytes_eq a.event_id b.event_id ≡ false → Apart before a b
before-Apart a b h =
    ground (arith, bytes_eq_iff a.event_id b.event_id, bytes_lt_total a.event_id b.event_id)

abbrev pub events : List Row → List Event
events rows = map (λ (r : Row). r.event) rows

abbrev pub UniqueIds : Db → Type 0
UniqueIds db = AllApart before (events db.events)

pub AllApart-append :
    (xs : List Event) (e : Event)
    → AllApart before xs
    → All (λ x. Apart before x e) xs
    → AllApart before (xs ++ e ∷ [])
AllApart-append [] e a h = (tt, tt)
AllApart-append (x ∷ xs) e a h =
    (All-append (Apart before x) xs (e ∷ []) a.0 (h.0, tt), AllApart-append xs e a.1 h.1)

pub events-append :
    (rows : List Row) (r : Row) → events (rows ++ r ∷ []) ≡ events rows ++ r.event ∷ []
events-append [] r = refl
events-append (q ∷ rows) r = ap (◌∷◌ q.event) (events-append rows r)

fresh-Apart :
    (e : Event) (rows : List Row)
    → has_event e.event_id rows ≡ false
    → All (λ x. Apart before x e) (events rows)
unfolding has_event
fresh-Apart e [] h = tt
fresh-Apart e (r ∷ rows) h =
    (before-Apart r.event e (ground arith), fresh-Apart e rows (ground arith))

-- An event that is recorded has a new id.
pub append_event-UniqueIds :
    (codec : Codec) (db : Db) (e : Event) (synced : Bool)
    → UniqueIds db
    → UniqueIds (append_event codec db e synced).0
append_event-UniqueIds codec db e synced u = elim (append_event-cases codec db e synced) [
  | known _ a ↦ rw a u
  | refused _ _ a ↦ rw a u
  | added c fresh _ a ↦ rw a (
      unfold write_row in
      rw events-append (AllApart-append (events db.events) e u (fresh-Apart e db.events fresh)))
]

All-events_of :
    (P : Event → Type 0) (id : Bytes) (rows : List Row)
    → All P (events rows)
    → All P (events_of id rows)
unfolding events_of
All-events_of P id [] h = tt
All-events_of P id (r ∷ rows) h = elim (Bool-cases (bytes_eq r.event.command_id id)) [
  | inl mine ↦ rw mine (h.0, All-events_of P id rows h.1)
  | inr other ↦ rw other (All-events_of P id rows h.1)
]

pub AllApart-events_of :
    (id : Bytes) (rows : List Row)
    → AllApart before (events rows)
    → AllApart before (events_of id rows)
unfolding events_of
AllApart-events_of id [] h = tt
AllApart-events_of id (r ∷ rows) h = elim (Bool-cases (bytes_eq r.event.command_id id)) [
  | inl mine ↦
      rw mine (All-events_of (Apart before r.event) id rows h.0, AllApart-events_of id rows h.1)
  | inr other ↦ rw other (AllApart-events_of id rows h.1)
]

In-events_of_mine :
    (a : Event) (id : Bytes) (r : Row) (l : List Event)
    → In a (if bytes_eq r.event.command_id id then r.event ∷ l else l)
    → (a ≡ r.event) × (r.event.command_id ≡ id) ⊎ In a l
In-events_of_mine a id r l h = elim (Bool-cases (bytes_eq r.event.command_id id)) [
  | inl mine ↦
      let h' : In a (r.event ∷ l) = rw mine at h in
      elim h' [ inl e ↦ inl (e, (bytes_eq_iff r.event.command_id id).0 mine) | inr q ↦ inr q ]
  | inr other ↦ let h' : In a l = rw other at h in inr h'
]

pub In-events_of :
    (a : Event) (id : Bytes) (rows : List Row)
    → In a (events_of id rows)
    → In a (events rows) × (a.command_id ≡ id)
unfolding events_of
In-events_of a id [] h = absurd h
In-events_of a id (r ∷ rows) h = elim (In-events_of_mine a id r (events_of id rows) h) [
  | inl (e, mine) ↦ (inl e, ap (λ (x : Event). x.command_id) e ∙ mine)
  | inr q ↦ let (there, mine) = In-events_of a id rows q in (inr there, mine)
]

pub events_of-In :
    (a : Event) (id : Bytes) (rows : List Row)
    → In a (events rows)
    → a.command_id ≡ id
    → In a (events_of id rows)
unfolding events_of
events_of-In a id [] h e = absurd h
events_of-In a id (r ∷ rows) (inl same) e =
    rw (← same, (bytes_eq_iff a.command_id id).1 e) (inl refl)
events_of-In a id (r ∷ rows) (inr there) e = elim (Bool-cases (bytes_eq r.event.command_id id)) [
  | inl mine ↦ rw mine (inr (events_of-In a id rows there e))
  | inr other ↦ rw other (events_of-In a id rows there e)
]
