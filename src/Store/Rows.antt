-- ===== src/Store/Rows.antt =====
-- What the row of a command says of the events behind it.
use shcr.Base.{
  Bool, true, false, ◌||◌, Option, none, some, List, [], ◌∷◌, In, ◌≡◌, ◌≢◌, refl, ◌∙◌, ◌⊎◌, inl,
  inr, arith, Bool-cases, Option-cases,
}
use shcr.Base.Bytes.{Bytes}
use shcr.Base.Int.{pos, eqb_ℤ, eqb_ℤ-iff}
use shcr.Base.Sort.{sort, In-sort}
use shcr.Base.Table.{lookup}
use shcr.Event.{Event, EventType, EndPayload, Codec, redacted_marker}
use shcr.Store.Types.{Command, Status, Db}
use shcr.Store.Recompute.{
  Gathered, before, events_of, gather_type, gather, derive, nothing_gathered, settle,
}
use shcr.Store.Materialized.{IsView, text_of}
use shcr.Store.Convergence.{derive-cons}

abbrev is_redact : EventType → Bool
is_redact EventType.redact = true
is_redact _ = false

abbrev is_orphan : EventType → Bool
is_orphan EventType.orphan = true
is_orphan _ = false

abbrev ended : Option EndPayload → Bool
ended none = false
ended (some _) = true

-- A row that carries a result.
abbrev pub Reported : Option Command → Type 0
Reported none = ⊥
Reported (some c) =
    (c.status ≡ Status.completed) × (c.exit_code ≡ some (pos 0))
    ⊎ (c.status ≡ Status.failed) × (c.exit_code ≢ some (pos 0)) × (c.exit_code ≢ none)

-- A row that is no longer running.
abbrev pub Over : Option Command → Type 0
Over none = ⊥
Over (some c) = (c.status ≡ Status.orphaned) ⊎ Reported (some c)

settle-Reported : (d : Bytes) (g : Gathered) → ended g.ended ≡ true → Reported (some (settle d g))
unfolding settle
settle-Reported d g h = elim (Option-cases g.ended) [
  | inl running ↦ cc (rw running at h)
  | inr (p, over) ↦ elim (Bool-cases (eqb_ℤ p.exit_code (pos 0))) [
    | inl zero_code ↦ inl (ground arith, ground (arith, eqb_ℤ-iff p.exit_code (pos 0)))
    | inr other_code ↦
        inr (ground arith, ground (arith, eqb_ℤ-iff p.exit_code (pos 0)), ground arith)
  ]
]

settle-Over : (d : Bytes) (g : Gathered) → g.orphaned ≡ true → Over (some (settle d g))
unfolding settle
settle-Over d g h = elim (Option-cases g.ended) [
  | inl running ↦ inl (ground arith)
  | inr (p, over) ↦ inr (settle-Reported d g (rw over refl))
]

module _ (codec : Codec) where
  gather_type-redacted :
      (t : EventType) (g g' : Gathered) (e : Event)
      → gather_type codec t g e ≡ some g'
      → (is_redact t || g.redacted) ≡ g'.redacted
  unfolding gather_type
  gather_type-redacted EventType.start g g' e h = ground arith
  gather_type-redacted _ g g' e h = ground arith

  gather_type-orphaned :
      (t : EventType) (g g' : Gathered) (e : Event)
      → gather_type codec t g e ≡ some g'
      → (is_orphan t || g.orphaned) ≡ g'.orphaned
  unfolding gather_type
  gather_type-orphaned EventType.start g g' e h = ground arith
  gather_type-orphaned _ g g' e h = ground arith

  -- A flag that an event of one type sets, and no event clears.
  module _ (kind : EventType → Bool) (flag : Gathered → Bool)
      (kept : (t : EventType) (g g' : Gathered) (e : Event)
        → gather_type codec t g e ≡ some g'
        → (kind t || flag g) ≡ flag g') where
    gather-flag :
        (es : List Event) (g g' : Gathered)
        → gather codec g es ≡ some g'
        → (flag g ≡ true) ⊎ ((a : Event) × In a es × (kind a.type ≡ true))
        → flag g' ≡ true
    unfolding gather
    gather-flag [] g g' h (inl d) = ground arith
    gather-flag [] g g' h (inr (a, none_here, _)) = absurd none_here
    gather-flag (e ∷ es) g g' h d = elim (Option-cases (gather_type codec e.type g e)) [
      | inl stuck ↦ cc (rw (stuck, gather) at h)
      | inr (g₁, first) ↦
          let step = kept e.type g g₁ e first in
          let next : (flag g₁ ≡ true) ⊎ ((a : Event) × In a es × (kind a.type ≡ true)) = elim d [
            | inl set ↦ inl (ground arith)
            | inr (a, inl here, k) ↦ inl (let k' = rw here at k in ground arith)
            | inr (a, inr there, k) ↦ inr (a, there, k)
          ] in
          gather-flag es g₁ g' (rw (first, gather) at h) next
    ]

    derive-flag :
        (id : Bytes) (es : List Event) (a : Event) {r : Option Command}
        → derive codec id es ≡ some r
        → In a es
        → kind a.type ≡ true
        → (d : Bytes) × (g : Gathered) × (r ≡ some (settle d g)) × (flag g ≡ true)
    derive-flag id [] a h here k = absurd here
    derive-flag id (e ∷ es) a h here k =
        let (g, done, row) = derive-cons codec id e es h in
        (
          e.device_id,
          g,
          row,
          gather-flag (sort before (e ∷ es)) (nothing_gathered id) g done
              (inr (a, (In-sort before a (e ∷ es)).1 here, k)),
        )

  -- Once the log holds a redact event of a command, whatever else it holds and in whatever order it
  -- came, the command's row and the text that a search finds are the marker.
  pub redact_hides :
      (db : Db) (a : Event)
      → IsView codec db
      → In a (events_of a.command_id db.events)
      → a.type ≡ EventType.redact
      → (text_of (lookup a.command_id db.commands) ≡ some redacted_marker)
        × (lookup a.command_id db.commands_fts ≡ some redacted_marker)
  redact_hides db a v here t =
      let (d, g, row, hidden) =
        derive-flag is_redact (λ (g : Gathered). g.redacted) gather_type-redacted a.command_id
          (events_of a.command_id db.events) a (v.row a.command_id) here (rw t refl) in
      let text : text_of (lookup a.command_id db.commands) ≡ some redacted_marker =
        rw row (unfold settle in ground arith) in
      (text, v.text a.command_id ∙ text)

  -- A command of which the log holds an orphan event is not running any more.
  pub orphan-Over :
      (db : Db) (a : Event)
      → IsView codec db
      → In a (events_of a.command_id db.events)
      → a.type ≡ EventType.orphan
      → Over (lookup a.command_id db.commands)
  orphan-Over db a v here t =
      let (d, g, row, gone) =
        derive-flag is_orphan (λ (g : Gathered). g.orphaned) gather_type-orphaned a.command_id
          (events_of a.command_id db.events) a (v.row a.command_id) here (rw t refl) in
      rw row (settle-Over d g gone)
