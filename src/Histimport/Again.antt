-- ===== src/Histimport/Again.antt =====
-- internal/histimport/histimport.go, `File`: the same file, imported a second time.
use shcr.Base.{
  ◌+◌, true, false, some, List, [], ◌∷◌, ◌≡◌, refl, sym, ap, ◌∙◌, inl, inr, arith, All, length, ◌⊎◌,
}
use shcr.Base.Bytes.{Bytes}
use shcr.Event.{Codec}
use shcr.Redact.{Action, apply}
use shcr.Histfile.Entries.{Entry}
use shcr.Store.Types.{Db}
use shcr.Store.Log.{has_event}
use shcr.Store.Materialized.{IsView}
use shcr.Histimport.{Options, Source, Tally, entry_event, import_entries, import_file, no_tally}
use shcr.Histimport.Rounds.{
  Readable, as_existing, as_existing-none, count_verdict, Held, AllHeld, count_entries, import,
}

-- Either a rule skips the entry, or its event is in the log.
abbrev pub TakenIn : (Bytes → Bytes) → Codec → Options → Source → Db → Entry → Type 0
TakenIn digest codec o src db e =
    ((apply o.rules e.command).1 ≡ Action.skip)
    ⊎ (has_event (entry_event digest codec o src e).event_id db.events ≡ true)

module _ (digest : Bytes → Bytes) (codec : Codec) (o : Options) (src : Source)
    (wet : o.dry_run ≡ false) (written : Readable codec) where
  Held-TakenIn :
      (a : Action) (e : Entry) (db : Db)
      → Held digest codec o src a e db
      → (a ≡ Action.skip) ⊎ (has_event (entry_event digest codec o src e).event_id db.events ≡ true)
  Held-TakenIn Action.skip e db h = inl refl
  Held-TakenIn Action.nothing e db h = inr h
  Held-TakenIn Action.redact e db h = inr h

  AllHeld-TakenIn :
      (entries : List Entry) (db : Db)
      → AllHeld digest codec o src wet written entries db
      → All (TakenIn digest codec o src db) entries
  unfolding AllHeld
  AllHeld-TakenIn [] db h = tt
  AllHeld-TakenIn (e ∷ entries) db (here, rest) =
      (Held-TakenIn (apply o.rules e.command).1 e db here, AllHeld-TakenIn entries db rest)

  verdict_counts :
      (a : Action) (r : Tally)
      → (count_verdict a r).existing + (count_verdict a r).skipped ≡ r.existing + r.skipped + 1
  verdict_counts Action.nothing r = omega arith
  verdict_counts Action.redact r = omega arith
  verdict_counts Action.skip r = omega arith

  entries_count :
      (entries : List Entry) (r : Tally)
      → (count_entries digest codec o src wet written entries r).existing
          + (count_entries digest codec o src wet written entries r).skipped
        ≡ r.existing + r.skipped + length entries
  unfolding count_entries
  entries_count [] r = omega arith
  entries_count (e ∷ entries) r =
      let a = (apply o.rules e.command).1 in
      let rest = entries_count entries (count_verdict a r) in
      let first = verdict_counts a r in omega arith

module _ (digest : Bytes → Bytes) (codec : Codec) (o : Options) (src : Source) where
  -- An import that is no dry run reports no error, and behind it the event of every entry whose
  -- command no rule skips is in the log; what it counts as new, as already there and as skipped are
  -- its entries; and the same import, done again, leaves the store as it is, and reports as already there all that the first one reported as
  -- new or as already there, and as redacted and as skipped what the first one did; if the rows of
  -- the store were what its log derives and JSON can read the import payloads that it writes.
  pub import_file_again :
      (db : Db)
      → o.dry_run ≡ false
      → Readable codec
      → IsView codec db
      → ((import_file digest codec o (some src) db).2 ≡ false)
        × All (TakenIn digest codec o src (import_file digest codec o (some src) db).0) src.entries
        × ((import_file digest codec o (some src) db).1.new
              + (import_file digest codec o (some src) db).1.existing
              + (import_file digest codec o (some src) db).1.skipped
            ≡ length src.entries)
        × (import_file digest codec o (some src) (import_file digest codec o (some src) db).0 ≡ (
          (import_file digest codec o (some src) db).0,
          as_existing (import_file digest codec o (some src) db).1,
          false,
        ))
  unfolding import_file
  import_file_again db wet written v =
      let first = import digest codec o src wet written src.entries db no_tally v in
      let db' = (import_entries digest codec o src src.entries db no_tally).0 in
      let second = import digest codec o src wet written src.entries db' no_tally first.view in
      let (kept, none_new) = second.same first.held in
      let tally = (import_entries digest codec o src src.entries db no_tally).1 in
      let sum =
        ap (λ (r : Tally). r.existing + r.skipped) first.counted
        ∙ entries_count digest codec o src wet written src.entries (as_existing no_tally) in
      let total : tally.new + tally.existing + tally.skipped ≡ length src.entries =
        omega (arith, sum) in
      let second_tally = (import_entries digest codec o src src.entries db' no_tally).1 in
      (
        first.complete,
        AllHeld-TakenIn digest codec o src wet written src.entries db' first.held,
        total,
        λ i. (
          kept i,
          (as_existing-none second_tally none_new ∙ second.counted ∙ sym first.counted) i,
          second.complete i,
        ),
      )
