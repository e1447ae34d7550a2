-- ===== src/Store/Convergence.antt =====
-- The rows do not depend on the order, or on the number of times, in which events arrive; but for
-- the device of a command that nothing has begun yet.
use shcr.Base.{
  Bool, true, false, Option, none, some, List, [], ◌∷◌, In, ◌≡◌, refl, ◌⊎◌, inl, inr, ◌↔◌, arith,
  Option-cases,
}
use shcr.Base.Bytes.{Bytes, is_empty}
use shcr.Base.Sort.{sort, sort_unique, In-sort}
use shcr.Base.Table.{lookup}
use shcr.Event.{Event, EventType, Codec}
use shcr.Store.Types.{Command, empty_db}
use shcr.Store.Recompute.{
  Gathered, before, events_of, gather_type, gather, derive, nothing_gathered, settle,
}
use shcr.Store.Materialized.{IsView-empty}
use shcr.Store.Unique.{before_order, events, In-events_of, events_of-In, AllApart-events_of}
use shcr.Store.Delivery.{deliver, delivered, Pool, deliver-IsView, deliver-UniqueIds, deliver-In}

-- A row with its device left out.
abbrev pub but_device : Option Command → Option Command
but_device none = none
but_device (some c) = some (record c { device_id = [] })

-- The types that carry a command's text and name its device.
abbrev pub is_origin : EventType → Bool
is_origin EventType.start = true
is_origin EventType.import = true
is_origin _ = false

settle-but_device :
    (d d' : Bytes) (g : Gathered)
    → ◌≡◌ {A = Command}
        (record (settle d g) { device_id = [] })
        (record (settle d' g) { device_id = [] })
unfolding settle
settle-but_device d d' g = ground arith

settle_known_device :
    (d d' : Bytes) (g : Gathered) → is_empty g.c.device_id ≡ false → settle d g ≡ settle d' g
unfolding settle
settle_known_device d d' g h = rw h

-- What is known of the device once an event that names it has been gathered.
module _ (codec : Codec) where
  abbrev HasDevice : Gathered → Type 0
  HasDevice g = is_empty g.c.device_id ≡ false

  gather_type-HasDevice :
      (t : EventType) (g g' : Gathered) (e : Event)
      → gather_type codec t g e ≡ some g'
      → is_empty e.device_id ≡ false
      → (HasDevice g) ⊎ (is_origin t ≡ true)
      → HasDevice g'
  unfolding gather_type
  gather_type-HasDevice EventType.start g g' e h named d = ground arith
  gather_type-HasDevice _ g g' e h named d = ground arith

  gather-HasDevice :
      (es : List Event) (g g' : Gathered)
      → gather codec g es ≡ some g'
      → ((a : Event) → In a es → is_empty a.device_id ≡ false)
      → (HasDevice g) ⊎ ((a : Event) × In a es × (is_origin a.type ≡ true))
      → HasDevice g'
  unfolding gather
  gather-HasDevice [] g g' h named (inl d) = ground arith
  gather-HasDevice [] g g' h named (inr (a, none_here, _)) = absurd none_here
  gather-HasDevice (e ∷ es) g g' h named d = elim (Option-cases (gather_type codec e.type g e)) [
    | inl stuck ↦ cc (rw (stuck, gather) at h)
    | inr (g₁, first) ↦
        let step = gather_type-HasDevice e.type g g₁ e first (named e (inl refl)) in
        let next : HasDevice g₁ ⊎ ((a : Event) × In a es × (is_origin a.type ≡ true)) = elim d [
          | inl known ↦ inl (step (inl known))
          | inr (a, inl here, origin) ↦ inl (step (inr (rw here at origin)))
          | inr (a, inr there, origin) ↦ inr (a, there, origin)
        ] in
        gather-HasDevice es g₁ g' (rw (first, gather) at h) (λ a q. named a (inr q)) next
  ]

  -- A derived row, taken apart.
  pub derive-cons :
      (id : Bytes) (e : Event) (es : List Event) {r : Option Command}
      → derive codec id (e ∷ es) ≡ some r
      → (g : Gathered) × (gather codec (nothing_gathered id) (sort before (e ∷ es)) ≡ some g)
        × (r ≡ some (settle e.device_id g))
  unfolding derive
  derive-cons id e es {r} h =
      elim (Option-cases (gather codec (nothing_gathered id) (sort before (e ∷ es)))) [
        | inl stuck ↦ cc (rw (stuck, derive) at h)
        | inr (g, done) ↦ (g, done, ground arith)
      ]

  derive-but_device :
      (id : Bytes) (l l' : List Event) {r r' : Option Command}
      → ((a : Event) → In a l ↔ In a l')
      → sort before l ≡ sort before l'
      → derive codec id l ≡ some r
      → derive codec id l' ≡ some r'
      → but_device r ≡ but_device r'
  derive-but_device id [] [] same sorted h h' = unfold derive in ground arith
  derive-but_device id [] (y ∷ l') same sorted h h' = absurd ((same y).1 (inl refl))
  derive-but_device id (x ∷ l) [] same sorted h h' = absurd ((same x).0 (inl refl))
  derive-but_device id (x ∷ l) (y ∷ l') same sorted h h' =
      let (g, done, row) = derive-cons id x l h in
      let (g', done', row') = derive-cons id y l' h' in
      let one : g ≡ g' = ground arith in ground (arith, settle-but_device x.device_id y.device_id g)

  derive_known_device :
      (id : Bytes) (l l' : List Event) {r r' : Option Command}
      → ((a : Event) → In a l ↔ In a l')
      → sort before l ≡ sort before l'
      → derive codec id l ≡ some r
      → derive codec id l' ≡ some r'
      → ((a : Event) → In a l → is_empty a.device_id ≡ false)
      → (a : Event) → In a l
      → is_origin a.type ≡ true
      → r ≡ r'
  derive_known_device id [] l' same sorted h h' named a here origin = absurd here
  derive_known_device id (x ∷ l) [] same sorted h h' named a here origin =
      absurd ((same x).0 (inl refl))
  derive_known_device id (x ∷ l) (y ∷ l') same sorted h h' named a here origin =
      let (g, done, row) = derive-cons id x l h in
      let (g', done', row') = derive-cons id y l' h' in
      let one : g ≡ g' = ground arith in
      let known : HasDevice g =
        gather-HasDevice (sort before (x ∷ l)) (nothing_gathered id) g done
          (λ b q. named b ((In-sort before b (x ∷ l)).0 q))
          (inr (a, (In-sort before a (x ∷ l)).1 here, origin)) in
      ground (arith, settle_known_device x.device_id y.device_id g known)

-- Two runs of deliveries that hold the same events.
module _ (codec : Codec) (xs ys : List (Event × Bool)) where
  abbrev SameEvents : Type 0
  SameEvents = (a : Event) → In a (delivered xs) ↔ In a (delivered ys)

  logged :
      (zs : List (Event × Bool))
      → Pool codec (delivered xs)
      → ((a : Event) → In a (delivered zs) → In a (delivered xs))
      → (a : Event) → In a (events (deliver codec empty_db zs).events) ↔ In a (delivered zs)
  logged zs fair within a =
      let all = deliver-In codec (delivered xs) fair empty_db zs a (λ b q. absurd q) within in
      (λ q. elim (all.0 q) [ inl l ↦ absurd l | inr r ↦ r ], λ q. all.1 (inr q))

  same_log :
      Pool codec (delivered xs)
      → SameEvents
      → (id : Bytes) (a : Event)
      → In a (events_of id (deliver codec empty_db xs).events)
        ↔ In a (events_of id (deliver codec empty_db ys).events)
  same_log fair same id a =
      let left = logged xs fair (λ b q. q) a in
      let right = logged ys fair (λ b q. (same b).1 q) a in
      (
        λ q.
            let (here, mine) = In-events_of a id (deliver codec empty_db xs).events q in
            events_of-In a id (deliver codec empty_db ys).events
              (right.1 ((same a).0 (left.0 here))) mine,
        λ q.
            let (here, mine) = In-events_of a id (deliver codec empty_db ys).events q in
            events_of-In a id (deliver codec empty_db xs).events
              (left.1 ((same a).1 (right.0 here))) mine,
      )

  same_order :
      Pool codec (delivered xs)
      → SameEvents
      → (id : Bytes)
      → sort before (events_of id (deliver codec empty_db xs).events)
        ≡ sort before (events_of id (deliver codec empty_db ys).events)
  same_order fair same id =
      sort_unique before before_order (events_of id (deliver codec empty_db xs).events)
        (events_of id (deliver codec empty_db ys).events)
        (AllApart-events_of id (deliver codec empty_db xs).events
          (deliver-UniqueIds codec empty_db xs tt))
        (AllApart-events_of id (deliver codec empty_db ys).events
          (deliver-UniqueIds codec empty_db ys tt))
        (same_log fair same id)

  -- Two stores that were handed the same events, each in any order, any number of times and through
  -- either entry point, hold the same row for every command but for its device, provided that no two
  -- of the events share an id and that their payloads can be read.
  pub converge_but_device :
      Pool codec (delivered xs)
      → ((a : Event) → In a (delivered xs) ↔ In a (delivered ys))
      → (id : Bytes)
      → but_device (lookup id (deliver codec empty_db xs).commands)
        ≡ but_device (lookup id (deliver codec empty_db ys).commands)
  converge_but_device fair same id =
      derive-but_device codec id (events_of id (deliver codec empty_db xs).events)
        (events_of id (deliver codec empty_db ys).events) (same_log fair same id)
        (same_order fair same id) ((deliver-IsView codec empty_db xs (IsView-empty codec)).row id)
        ((deliver-IsView codec empty_db ys (IsView-empty codec)).row id)

  -- Two stores that were handed the same events, each in any order, any number of times and through
  -- either entry point, hold the same row for a command, the device included, where one of the events
  -- is a start or an import of the command and the events name their devices, provided that no two
  -- of the events share an id and that their payloads can be read.
  pub converge :
      Pool codec (delivered xs)
      → ((a : Event) → In a (delivered xs) ↔ In a (delivered ys))
      → ((a : Event) → In a (delivered xs) → is_empty a.device_id ≡ false)
      → (origin : Event) → In origin (delivered xs)
      → is_origin origin.type ≡ true
      → lookup origin.command_id (deliver codec empty_db xs).commands
        ≡ lookup origin.command_id (deliver codec empty_db ys).commands
  converge fair same named origin here begun =
      let id = origin.command_id in
      let rows = (deliver codec empty_db xs).events in
      let log = logged xs fair (λ b q. q) in
      derive_known_device codec id (events_of id rows)
        (events_of id (deliver codec empty_db ys).events) (same_log fair same id)
        (same_order fair same id) ((deliver-IsView codec empty_db xs (IsView-empty codec)).row id)
        ((deliver-IsView codec empty_db ys (IsView-empty codec)).row id)
        (λ a q. named a ((log a).0 (In-events_of a id rows q).0)) origin
        (events_of-In origin id rows ((log origin).1 here) refl) begun
