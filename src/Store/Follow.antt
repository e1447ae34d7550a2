-- ===== src/Store/Follow.antt =====
-- A reader that follows the log by `EventsSince`.
use shcr.Base.{
  ℕ, ◌+◌, ◌≤◌, min, true, false, not, ◌&&◌, List, [], ◌∷◌, map, take, drop, length-take,
  length-drop, ◌≡◌, inl, inr, arith, Bool-cases,
}
use shcr.Base.Bytes.{Bytes, bytes_eq, bytes_eq_iff, bytes_eq_refl}
use shcr.Store.Types.{Row, Db}
use shcr.Store.Stats.{has_text}
use shcr.Store.Dashboard.{ids_behind, events_since, max_event_row_id}

abbrev pub ids_of_rows : List Row → List Bytes
ids_of_rows rows = map (λ (r : Row). r.event.command_id) rows

-- No id is there twice.
abbrev pub Once : List Bytes → Type 0
Once [] = Unit
Once (id ∷ ids) = (has_text id ids ≡ false) × Once ids

has_text-ids_behind :
    (id : Bytes) (seen : List Bytes) (rows : List Row)
    → has_text id (ids_behind seen rows)
      ≡ (not (has_text id seen) && has_text id (ids_of_rows rows))
unfolding has_text ids_behind
has_text-ids_behind id seen [] = ground arith
has_text-ids_behind id seen (r ∷ rows) =
    let own = r.event.command_id in
    elim (Bool-cases (has_text own seen)) [
      | inl known ↦ elim (Bool-cases (bytes_eq own id)) [
        | inl same ↦
            let k : has_text id seen ≡ true = rw ((bytes_eq_iff own id).0 same) at known in
            ground (arith, known, same, k, has_text-ids_behind id seen rows)
        | inr differ ↦ ground (arith, known, differ, has_text-ids_behind id seen rows)
      ]
      | inr first ↦ elim (Bool-cases (bytes_eq own id)) [
        | inl same ↦
            let k : has_text id seen ≡ false = rw ((bytes_eq_iff own id).0 same) at first in
            ground (arith, first, same, k)
        | inr differ ↦ ground (arith, first, differ, has_text-ids_behind id (own ∷ seen) rows)
      ]
    ]

ids_behind-Once : (seen : List Bytes) (rows : List Row) → Once (ids_behind seen rows)
unfolding ids_behind has_text
ids_behind-Once seen [] = tt
ids_behind-Once seen (r ∷ rows) = elim (Bool-cases (has_text r.event.command_id seen)) [
  | inl known ↦ rw known (ids_behind-Once seen rows)
  | inr first ↦ rw first (
    ground (
      arith,
      has_text-ids_behind r.event.command_id (r.event.command_id ∷ seen) rows,
      bytes_eq_refl r.event.command_id,
    ),
    ids_behind-Once (r.event.command_id ∷ seen) rows,
  )
]

-- A reader that stands inside the log is given the ids of the next 500 events, each once and no
-- others, and stands behind those events, or at the end of the log if there are fewer.
pub events_since_exact :
    (db : Db) (row_id : ℕ) (id : Bytes)
    → row_id ≤ max_event_row_id db
    → (has_text id (events_since db row_id).0
        ≡ has_text id (ids_of_rows (take 500 (drop row_id db.events))))
      × Once (events_since db row_id).0
      × ((events_since db row_id).1 ≡ min (row_id + 500) (max_event_row_id db))
unfolding events_since has_text max_event_row_id
events_since_exact db row_id id inside = (
  has_text-ids_behind id [] (take 500 (drop row_id db.events)),
  ids_behind-Once [] (take 500 (drop row_id db.events)),
  omega (arith, length-take 500 (drop row_id db.events), length-drop row_id db.events),
)
