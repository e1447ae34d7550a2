-- ===== src/Histimport/Rounds.antt =====
-- internal/histimport/histimport.go, `File`: what an import that is no dry run does with its entries.
use shcr.Base.{
  ◌+◌, Bool, true, false, not, none, List, [], ◌∷◌, ◌≡◌, ◌≢◌, refl, ap, ◌∙◌, inl, inr, arith,
  Option-cases,
}
use shcr.Base.Bytes.{Bytes}
use shcr.Event.{Event, EventType, ImportPayload, Codec}
use shcr.Redact.{Action, apply}
use shcr.Histfile.Entries.{Entry}
use shcr.Store.Types.{Db}
use shcr.Store.Log.{ok, has_event, append_event}
use shcr.Store.Materialized.{IsView, append_event-IsView}
use shcr.Store.Delivery.{readable, readable_as}
use shcr.Store.Replay.{append_report, recorded}
use shcr.Store.Growth.{Grows, append_event-Grows}
use shcr.Histimport.{
  Options, Source, Tally, Step, entry_event, tally_entry, tally_redacted, import_event, appended,
  import_entry, import_verdict, import_entries,
}

-- What JSON writes of an import it can read.
abbrev pub Readable : Codec → Type 0
Readable codec = (p : ImportPayload) → codec.read_import (codec.write_import p) ≢ none

-- What is reported of a file all of whose entries are there already.
abbrev pub as_existing : Tally → Tally
as_existing r = record {
  new = 0;
  existing = r.new + r.existing;
  redacted = r.redacted;
  skipped = r.skipped;
}

-- What an entry adds to that, by the verdict of the redactor.
abbrev pub count_verdict : Action → Tally → Tally
count_verdict Action.nothing r = record r { existing = r.existing + 1 }
count_verdict Action.redact r = record r { existing = r.existing + 1; redacted = r.redacted + 1 }
count_verdict Action.skip r = record r { skipped = r.skipped + 1 }

as_existing-tally_entry :
    (inserted : Bool) (r : Tally)
    → as_existing (tally_entry inserted r)
      ≡ record (as_existing r) { existing = (as_existing r).existing + 1 }
unfolding tally_entry
as_existing-tally_entry true r = ap (λ n. record (as_existing r) { existing = n }) (omega arith)
as_existing-tally_entry false r = ap (λ n. record (as_existing r) { existing = n }) (omega arith)

pub as_existing-none : (r : Tally) → r.new ≡ 0 → r ≡ as_existing r
as_existing-none r h = λ i. record r { new = h i; existing = total i }
  where
    total : r.existing ≡ r.new + r.existing
    total = omega arith

-- An append that takes no error.
record Taken (codec : Codec) (db : Db) (e : Event) : Type 0 where
  db' : Db
  inserted : Bool
  answer : append_event codec db e false ≡ (db', ok inserted)
  view : IsView codec db'
  grows : Grows db db'
  there : has_event e.event_id db'.events ≡ true
  known : has_event e.event_id db.events ≡ true → (db' ≡ db) × (inserted ≡ false)

taken :
    (codec : Codec) (db : Db) (e : Event)
    → readable codec e ≡ true
    → IsView codec db
    → Taken codec db e
taken codec db e fit v =
    let (result, kept) = append_report codec db e false v in
    let fine : (append_event codec db e false).1 ≡ ok (not (has_event e.event_id db.events)) =
      ground (arith, result, fit) in
    record {
      db' = (append_event codec db e false).0;
      inserted = not (has_event e.event_id db.events);
      answer = ap (λ reply. ((append_event codec db e false).0, reply)) fine;
      view = append_event-IsView codec db e false v;
      grows = append_event-Grows codec db e false;
      there = recorded codec db e false (λ bad. cc (bad, fine));
      known = λ old. (kept (λ new. ground (arith, fine, old, new)), rw old refl);
    }

module _ (digest : Bytes → Bytes) (codec : Codec) (o : Options) (src : Source) where
  -- The event of the entry is in the log, unless a rule skips it.
  abbrev pub Held : Action → Entry → Db → Type 0
  Held Action.skip e db = Unit
  Held _ e db = has_event (entry_event digest codec o src e).event_id db.events ≡ true

  -- What the round of an entry does.
  record Round (a : Action) (e : Entry) (db : Db) (r : Tally) : Type 0 where
    db' : Db
    r' : Tally
    step : import_verdict digest codec o src a e db r ≡ Step.go_on db' r'
    view : IsView codec db'
    grows : Grows db db'
    held : Held a e db'
    same : Held a e db → (db' ≡ db) × (r'.new ≡ r.new)
    counted : as_existing r' ≡ count_verdict a (as_existing r)

  module _ (wet : o.dry_run ≡ false) (written : Readable codec) where
    written-readable :
        (p : ImportPayload) → readable_as codec EventType.import (codec.write_import p) ≡ true
    written-readable p = elim (Option-cases (codec.read_import (codec.write_import p))) [
      | inl bad ↦ absurd (written p bad)
      | inr (q, read) ↦ rw read refl
    ]

    event-readable : (e : Entry) → readable codec (entry_event digest codec o src e) ≡ true
    unfolding import_event
    event-readable e = written-readable _

    round : (a : Action) (e : Entry) (db : Db) (r : Tally) → IsView codec db → Round a e db r
    unfolding import_verdict import_entry appended tally_entry tally_redacted
    round Action.skip e db r v = record {
      db' = db;
      r' = record r { skipped = r.skipped + 1 };
      step = refl;
      view = v;
      grows = λ id h. h;
      held = tt;
      same = λ _. (refl, refl);
      counted = refl;
    }
    round Action.nothing e db r v =
        let t = taken codec db (entry_event digest codec o src e) (event-readable e) v in
        record {
          db' = t.db';
          r' = tally_entry t.inserted r;
          step = rw (wet, t.answer) refl;
          view = t.view;
          grows = t.grows;
          held = t.there;
          same = λ old. let (kept, known) = t.known old in (kept, rw known refl);
          counted = as_existing-tally_entry t.inserted r;
        }
    round Action.redact e db r v =
        let t = taken codec db (entry_event digest codec o src e) (event-readable e) v in
        let r₁ = tally_redacted Action.redact r in
        record {
          db' = t.db';
          r' = tally_entry t.inserted r₁;
          step = rw (wet, t.answer) refl;
          view = t.view;
          grows = t.grows;
          held = t.there;
          same = λ old. let (kept, known) = t.known old in (kept, rw known refl);
          counted = as_existing-tally_entry t.inserted r₁;
        }

    unfoldable pub AllHeld : List Entry → Db → Type 0
    AllHeld [] db = Unit
    AllHeld (e ∷ entries) db = Held (apply o.rules e.command).1 e db × AllHeld entries db

    unfoldable pub count_entries : List Entry → Tally → Tally
    count_entries [] r = r
    count_entries (e ∷ entries) r =
        count_entries entries (count_verdict (apply o.rules e.command).1 r)

    Held-Grows : (a : Action) (e : Entry) (db db' : Db) → Grows db db' → Held a e db → Held a e db'
    Held-Grows Action.skip e db db' g h = tt
    Held-Grows Action.nothing e db db' g h = g _ h
    Held-Grows Action.redact e db db' g h = g _ h

    abbrev pub after : List Entry → Db → Tally → Db × Tally × Bool
    after entries db r = import_entries digest codec o src entries db r

    -- What an import leaves.
    pub record Import (entries : List Entry) (db : Db) (r : Tally) : Type 0 where
      pub complete : (after entries db r).2 ≡ false
      pub view : IsView codec (after entries db r).0
      pub grows : Grows db (after entries db r).0
      pub held : AllHeld entries (after entries db r).0
      pub same :
          AllHeld entries db → ((after entries db r).0 ≡ db) × ((after entries db r).1.new ≡ r.new)
      pub counted : as_existing (after entries db r).1 ≡ count_entries entries (as_existing r)

    pub import :
        (entries : List Entry) (db : Db) (r : Tally) → IsView codec db → Import entries db r
    unfolding AllHeld count_entries import_entries
    import [] db r v = record {
      complete = refl;
      view = v;
      grows = λ id h. h;
      held = tt;
      same = λ _. (refl, refl);
      counted = refl;
    }
    import (e ∷ entries) db r v =
        let first = round (apply o.rules e.command).1 e db r v in
        let rest = import entries first.db' first.r' first.view in
        let step : after (e ∷ entries) db r ≡ after entries first.db' first.r' =
          rw (first.step, import_entries) refl in
        record {
          complete = rw step rest.complete;
          view = rw step rest.view;
          grows = rw step (λ id h. rest.grows id (first.grows id h));
          held = rw step (
            Held-Grows (apply o.rules e.command).1 e first.db' (after entries first.db' first.r').0
                rest.grows first.held,
            rest.held,
          );
          same = λ here.
              let (kept, as_before) = first.same here.0 in
              let (kept', as_before') = rest.same (rw kept here.1) in
              rw step (kept' ∙ kept, as_before' ∙ as_before);
          counted = rw (step, ← first.counted) rest.counted;
        }
