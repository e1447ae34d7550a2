-- ===== src/Store/Keyed.antt =====
-- `id` is the primary key of `commands`: every row stands under its own id, and no two share one.
use shcr.Base.{
  Bool, false, some, List, [], ◌∷◌, ◌≡◌, refl, sym, ap, ◌∙◌, inl, inr, arith, Bool-cases,
  Option-cases, All,
}
use shcr.Base.Bytes.{Bytes, bytes_eq, bytes_eq_iff}
use shcr.Base.Table.{Table, upsert}
use shcr.Base.Sort.{sort}
use shcr.Event.{Event, EventType, Codec}
use shcr.Store.Types.{Command, Db}
use shcr.Store.Recompute.{
  Gathered, before, gather_type, gather, derive, nothing_gathered, settle, resolve, write_row,
  apply_start, apply_import,
}
use shcr.Store.Log.{append_event}
use shcr.Store.Materialized.{known, refused, added, append_event-cases}
use shcr.Store.Convergence.{derive-cons}

-- The key is none of the table's.
abbrev pub IsNewKey : Bytes → Table Command → Type 0
IsNewKey k rows = All (λ (row : Bytes × Command). bytes_eq k row.0 ≡ false) rows

abbrev pub Keyed : Table Command → Type 0
Keyed [] = Unit
Keyed ((k, c) ∷ rows) = (c.id ≡ k) × IsNewKey k rows × Keyed rows

upsert-IsNewKey :
    (j k : Bytes) (c : Command) (rows : Table Command)
    → bytes_eq j k ≡ false
    → IsNewKey j rows
    → IsNewKey j (upsert k c rows)
unfolding upsert
upsert-IsNewKey j k c [] differ h = (differ, tt)
upsert-IsNewKey j k c ((i, d) ∷ rows) differ h = elim (Bool-cases (bytes_eq i k)) [
  | inl same ↦ rw same (h.0, h.1)
  | inr other ↦ rw other (h.0, upsert-IsNewKey j k c rows differ h.1)
]

upsert-Keyed :
    (k : Bytes) (c : Command) (rows : Table Command)
    → c.id ≡ k
    → Keyed rows
    → Keyed (upsert k c rows)
unfolding upsert
upsert-Keyed k c [] own h = (own, tt, tt)
upsert-Keyed k c ((j, d) ∷ rows) own h = elim (Bool-cases (bytes_eq j k)) [
  | inl same ↦ rw same (own ∙ sym ((bytes_eq_iff j k).0 same), h.1, h.2)
  | inr other ↦ rw other (h.0, upsert-IsNewKey j k c rows other h.1, upsert-Keyed k c rows own h.2)
]

settle-id : (d : Bytes) (g : Gathered) → (settle d g).id ≡ g.c.id
unfolding settle resolve
settle-id d g = elim (Option-cases g.ended) [
  | inl running ↦ rw (running, resolve) refl
  | inr (p, over) ↦ rw (over, resolve) refl
]

module _ (codec : Codec) where
  gather_type-id :
      (t : EventType) (g g' : Gathered) (e : Event)
      → gather_type codec t g e ≡ some g'
      → g'.c.id ≡ g.c.id
  unfolding gather_type apply_start apply_import
  gather_type-id EventType.start g g' e h = ground arith
  gather_type-id _ g g' e h = ground arith

  gather-id : (es : List Event) (g g' : Gathered) → gather codec g es ≡ some g' → g'.c.id ≡ g.c.id
  unfolding gather
  gather-id [] g g' h = ground arith
  gather-id (e ∷ es) g g' h = elim (Option-cases (gather_type codec e.type g e)) [
    | inl stuck ↦ cc (rw (stuck, gather) at h)
    | inr (g₁, first) ↦
        gather-id es g₁ g' (rw (first, gather) at h) ∙ gather_type-id e.type g g₁ e first
  ]

  derive-id :
      (id : Bytes) (es : List Event) (c : Command) → derive codec id es ≡ some (some c) → c.id ≡ id
  derive-id id [] c h = unfold derive in (cc h)
  derive-id id (e ∷ es) c h =
      let (g, done, row) = derive-cons codec id e es h in
      let same : c ≡ settle e.device_id g = cc row in
      ap (λ (x : Command). x.id) same
      ∙ settle-id e.device_id g
      ∙ gather-id (sort before (e ∷ es)) (nothing_gathered id) g done

  -- No append, whatever its event and whether it is recorded or refused, puts a row under an id that
  -- is not the row's, or two rows under one id.
  pub append_event-Keyed :
      (db : Db) (e : Event) (synced : Bool)
      → Keyed db.commands
      → Keyed (append_event codec db e synced).0.commands
  append_event-Keyed db e synced h = elim (append_event-cases codec db e synced) [
    | known _ a ↦ rw a h
    | refused _ _ a ↦ rw a h
    | added c _ d a ↦ rw a (
        unfold write_row in
        upsert-Keyed e.command_id c db.commands (derive-id e.command_id _ c d) h)
  ]
