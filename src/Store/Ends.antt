-- ===== src/Store/Ends.antt =====
-- internal/store/store.go, `recompute`: what the end events of a command make of its row.
use shcr.Base.{
  Bool, true, false, Option, none, some, List, [], ◌∷◌, ◌++◌, In, All, All-In, if◌then◌else◌, ◌≡◌,
  refl, sym, ap, ◌∙◌, ◌⊎◌, inl, inr, arith, Option-cases,
}
use shcr.Base.Bytes.{Bytes}
use shcr.Base.Int.{pos, eqb_ℤ}
use shcr.Base.Sort.{sort, In-sort}
use shcr.Base.Table.{lookup}
use shcr.Event.{Event, EventType, EndPayload, Codec}
use shcr.Store.Types.{Command, Status, Db}
use shcr.Store.Recompute.{
  Gathered, before, events_of, gather_type, gather, derive, nothing_gathered, settle, resolve,
}
use shcr.Store.Materialized.{IsView}
use shcr.Store.Convergence.{derive-cons}

abbrev pub ends : EventType → Bool
ends EventType.end = true
ends _ = false

-- The row has the time and the exit code of the payload, and the status of that code.
abbrev pub ResultOf : EndPayload → Option Command → Type 0
ResultOf p none = ⊥
ResultOf p (some c) =
    (c.end_time ≡ some p.end_time)
    × (c.exit_code ≡ some p.exit_code)
    × (c.status ≡ (if eqb_ℤ p.exit_code (pos 0) then Status.completed else Status.failed))

settle-ResultOf :
    (d : Bytes) (g : Gathered) (p : EndPayload) → g.ended ≡ some p → ResultOf p (some (settle d g))
unfolding settle resolve
settle-ResultOf d g p over = rw over (refl, refl, refl)

-- The last end event of a list, and what it says.
pub record LastEnd (codec : Codec) (es : List Event) : Type 0 where
  pub front : List Event
  pub last : Event
  pub back : List Event
  pub payload : EndPayload
  pub split : es ≡ front ++ last ∷ back
  pub kind : ends last.type ≡ true
  pub none_behind : All (λ (e : Event). ends e.type ≡ false) back
  pub read : codec.read_end last.payload ≡ some payload

module _ (codec : Codec) where
  -- What one event does to the result.
  EndStep : EventType → Gathered → Gathered → Event → Type 0
  EndStep t g g' e =
      ((ends t ≡ false) × (g'.ended ≡ g.ended))
      ⊎ ((p : EndPayload) × (ends t ≡ true)
          × (codec.read_end e.payload ≡ some p)
          × (g'.ended ≡ some p))

  gather_type-EndStep :
      (t : EventType) (g g' : Gathered) (e : Event)
      → gather_type codec t g e ≡ some g'
      → EndStep t g g' e
  unfolding gather_type EndStep
  gather_type-EndStep EventType.end g g' e h = elim (Option-cases (codec.read_end e.payload)) [
    | inl bad ↦ cc (rw (bad, gather_type) at h)
    | inr (p, read) ↦
        let made : some (record g { ended = some p }) ≡ some g' = rw (read, gather_type) at h in
        let same : record g { ended = some p } ≡ g' = cc made in
        inr (p, refl, read, ap (λ (x : Gathered). x.ended) (sym same))
  ]
  gather_type-EndStep EventType.start g g' e h = inl (refl, ground arith)
  gather_type-EndStep EventType.import g g' e h = inl (refl, ground arith)
  gather_type-EndStep EventType.orphan g g' e h = inl (refl, ground arith)
  gather_type-EndStep EventType.redact g g' e h = inl (refl, ground arith)
  gather_type-EndStep (EventType.other _) g g' e h = inl (refl, ground arith)

  -- What a list of events does to the result.
  Ends : Gathered → Gathered → List Event → Type 0
  Ends g g' es =
      (All (λ (e : Event). ends e.type ≡ false) es × (g'.ended ≡ g.ended))
      ⊎ ((l : LastEnd codec es) × (g'.ended ≡ some l.payload))

  gather-Ends : (es : List Event) (g g' : Gathered) → gather codec g es ≡ some g' → Ends g g' es
  unfolding gather EndStep Ends
  gather-Ends [] g g' h =
      inl (tt, let same : g ≡ g' = cc h in ap (λ (x : Gathered). x.ended) (sym same))
  gather-Ends (e ∷ es) g g' h = elim (Option-cases (gather_type codec e.type g e)) [
    | inl stuck ↦ cc (rw (stuck, gather) at h)
    | inr (g₁, first) ↦ elim (gather-Ends es g₁ g' (rw (first, gather) at h)) [
      | inr (l, over) ↦ inr (
        record {
          front = e ∷ l.front;
          last = l.last;
          back = l.back;
          payload = l.payload;
          split = ap (◌∷◌ e) l.split;
          kind = l.kind;
          none_behind = l.none_behind;
          read = l.read;
        },
        over,
      )
      | inl (none_here, kept) ↦ elim (gather_type-EndStep e.type g g₁ e first) [
        | inl (other, kept') ↦ inl ((other, none_here), kept ∙ kept')
        | inr (p, is_it, read, over) ↦ inr (
          record {
            front = [];
            last = e;
            back = es;
            payload = p;
            split = refl;
            kind = is_it;
            none_behind = none_here;
            read = read;
          },
          kept ∙ over,
        )
      ]
    ]
  ]

  derive-LastEnd :
      (id : Bytes) (es : List Event) (a : Event) (r : Option Command)
      → In a es
      → ends a.type ≡ true
      → derive codec id es ≡ some r
      → (l : LastEnd codec (sort before es)) × ResultOf l.payload r
  unfolding Ends
  derive-LastEnd id [] a r none_here is_it h = absurd none_here
  derive-LastEnd id (e ∷ es) a r here is_it h =
      let (g, done, row) = derive-cons codec id e es h in
      elim (gather-Ends (sort before (e ∷ es)) (nothing_gathered id) g done) [
        | inl (none_ends, _) ↦
            let not_it : ends a.type ≡ false =
              All-In (λ (x : Event). ends x.type ≡ false) a (sort before (e ∷ es)) none_ends
                ((In-sort before a (e ∷ es)).1 here) in
            cc (is_it, not_it)
        | inr (l, over) ↦ (l, rw row (settle-ResultOf e.device_id g l.payload over))
      ]

  -- Once the log holds an end event of a command, the last of its end events in the table's order
  -- gives the row its end time and its exit code, and the status is completed where that code is zero
  -- and failed for any other, whatever an orphan sweep concluded and in whatever order the events
  -- came.
  pub end_wins :
      (db : Db) (a : Event)
      → IsView codec db
      → In a (events_of a.command_id db.events)
      → a.type ≡ EventType.end
      → (l : LastEnd codec (sort before (events_of a.command_id db.events))) × ResultOf l.payload
          (lookup a.command_id db.commands)
  end_wins db a v here t =
      derive-LastEnd a.command_id (events_of a.command_id db.events) a
        (lookup a.command_id db.commands) here (rw t refl) (v.row a.command_id)
