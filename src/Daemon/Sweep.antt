-- ===== src/Daemon/Sweep.antt =====
-- internal/daemon/daemon.go, `SweepOrphans`: which commands a sweep closes, and which it leaves.
use shcr.Base.{
  ℕ, ◌+◌, ◌≤◌, ◌<◌, true, false, List, [], ◌∷◌, ◌≡◌, refl, sym, ap, ◌∙◌, inl, inr, arith,
  Bool-cases, In,
}
use shcr.Base.Bytes.{Bytes, bytes_eq}
use shcr.Base.Int.{ℤ, ◌-ℤ◌, wrap64}
use shcr.Base.Table.{lookup}
use shcr.Event.{Event, EventType, Codec}
use shcr.Store.Types.{Command, Db}
use shcr.Store.Log.{ok, has_event, append_event}
use shcr.Store.Unique.{events, events_of-In}
use shcr.Store.Materialized.{IsView, append_event-IsView}
use shcr.Store.Replay.{append_report}
use shcr.Store.Growth.{
  append_event-keeps, append_event-adds, append_event-fresh, append_event-other, Result-cases,
}
use shcr.Store.Rows.{Over, orphan-Over}
use shcr.Store.Queries.{live_commands}
use shcr.Daemon.{Probe, is_left, orphan_event, sweep_grace, sweep_loop, sweep_orphans}

-- The identifiers that are drawn from the `n`-th on are new to the log, and all different.
abbrev pub NewIds : Probe → Db → ℕ → Type 0
NewIds probe db n =
    ((m : ℕ) → n ≤ m → has_event (probe.draws m).id db.events ≡ false)
    × ((i j : ℕ) → i < j → bytes_eq (probe.draws i).id (probe.draws j).id ≡ false)

module _ (codec : Codec) (probe : Probe) (device : Bytes) where
  -- A round that marks its command.
  record Marked (c : Command) (db : Db) (n : ℕ) : Type 0 where
    db' : Db
    round :
        (cutoff : ℤ) (live : List Command)
        → is_left probe cutoff c ≡ false
        → sweep_loop codec probe device cutoff (c ∷ live) db n
          ≡ sweep_loop codec probe device cutoff live db' (n + 1)
    view : IsView codec db'
    ids : NewIds probe db' (n + 1)
    there : In (orphan_event probe device c n) (events db'.events)
    kept : (a : Event) → In a (events db.events) → In a (events db'.events)

  mark : (c : Command) (db : Db) (n : ℕ) → IsView codec db → NewIds probe db n → Marked c db n
  unfolding sweep_loop
  mark c db n v (fresh, apart) =
      let e = orphan_event probe device c n in
      let good : (append_event codec db e false).1 ≡ ok true =
        ground (arith, append_report codec db e false v, fresh n) in
      record {
        db' = (append_event codec db e false).0;
        round = λ cutoff live stale. rw (stale, good, sweep_loop) refl;
        view = append_event-IsView codec db e false v;
        ids = (
          λ m later.
              append_event-fresh codec db e false (probe.draws m).id (fresh m (omega arith))
                (apart n m (omega arith)),
          apart,
        );
        there = append_event-adds codec db e false good;
        kept = λ a h. append_event-keeps codec db e false a h;
      }

  sweep_loop-left :
      (cutoff : ℤ) (c : Command) (live : List Command) (db : Db) (n : ℕ)
      → is_left probe cutoff c ≡ true
      → sweep_loop codec probe device cutoff (c ∷ live) db n
        ≡ sweep_loop codec probe device cutoff live db n
  unfolding sweep_loop
  sweep_loop-left cutoff c live db n h = rw (h, sweep_loop) refl

  -- What a loop leaves.
  record Swept (cutoff : ℤ) (live : List Command) (db : Db) (n : ℕ) : Type 0 where
    complete : (sweep_loop codec probe device cutoff live db n).2 ≡ false
    view : IsView codec (sweep_loop codec probe device cutoff live db n).0
    kept :
        (a : Event)
        → In a (events db.events)
        → In a (events (sweep_loop codec probe device cutoff live db n).0.events)
    marked :
        (c : Command)
        → In c live
        → is_left probe cutoff c ≡ false
        → (a : Event) × (a.command_id ≡ c.id)
          × (a.type ≡ EventType.orphan)
          × In a (events (sweep_loop codec probe device cutoff live db n).0.events)

  sweep_loop-Swept :
      (cutoff : ℤ) (live : List Command) (db : Db) (n : ℕ)
      → IsView codec db
      → NewIds probe db n
      → Swept cutoff live db n
  sweep_loop-Swept cutoff [] db n v ids =
      unfold sweep_loop in
      (record {
        complete = refl;
        view = v;
        kept = λ a h. h;
        marked = λ c none_there _. absurd none_there;
      })
  sweep_loop-Swept cutoff (c ∷ live) db n v ids = elim (Bool-cases (is_left probe cutoff c)) [
    | inl left ↦
        let rest = sweep_loop-Swept cutoff live db n v ids in
        let same = sweep_loop-left cutoff c live db n left in
        record {
          complete = rw same rest.complete;
          view = rw same rest.view;
          kept = rw same rest.kept;
          marked = λ c' here stale. elim here [
            | inl e ↦ cc (left, stale, e)
            | inr q ↦ rw same (rest.marked c' q stale)
          ];
        }
    | inr stale ↦
        let m = mark c db n v ids in
        let rest = sweep_loop-Swept cutoff live m.db' (n + 1) m.view m.ids in
        let same = m.round cutoff live stale in
        record {
          complete = rw same rest.complete;
          view = rw same rest.view;
          kept = rw same (λ a h. rest.kept a (m.kept a h));
          marked = λ c' here stale'. elim here [
            | inl e ↦ (
              orphan_event probe device c n,
              ap (λ (x : Command). x.id) (sym e),
              refl,
              rw same (rest.kept (orphan_event probe device c n) m.there),
            )
            | inr q ↦ rw same (rest.marked c' q stale')
          ];
        }
  ]

  -- A sweep does not fail, and behind it every command that the store had as running on this
  -- device, that started before the grace and whose shell is gone is orphaned, or has the result
  -- that the log holds of it; if the rows of the store were what its log derives and the identifiers
  -- drawn are new and different.
  pub sweep_orphans-Over :
      (now : ℤ) (db : Db) (c : Command)
      → IsView codec db
      → NewIds probe db 0
      → In c (live_commands db device)
      → is_left probe (wrap64 (now -ℤ sweep_grace)) c ≡ false
      → ((sweep_orphans codec probe device now db).2 ≡ false)
        × Over (lookup c.id (sweep_orphans codec probe device now db).0.commands)
  unfolding sweep_orphans
  sweep_orphans-Over now db c v ids here stale =
      let swept =
        sweep_loop-Swept (wrap64 (now -ℤ sweep_grace)) (live_commands db device) db 0 v ids in
      let (a, mine, kind, there) = swept.marked c here stale in
      let db' = (sweep_orphans codec probe device now db).0 in
      (
        swept.complete,
        rw (← mine) (
            orphan-Over codec db' a swept.view (events_of-In a a.command_id db'.events there refl)
              kind),
      )

  pub sweep_loop-other :
      (cutoff : ℤ) (live : List Command) (db : Db) (n : ℕ) (id : Bytes)
      → ((c : Command) → In c live → is_left probe cutoff c ≡ false → bytes_eq c.id id ≡ false)
      → lookup id (sweep_loop codec probe device cutoff live db n).0.commands
        ≡ lookup id db.commands
  unfolding sweep_loop
  sweep_loop-other cutoff [] db n id h = refl
  sweep_loop-other cutoff (c ∷ live) db n id h = elim (Bool-cases (is_left probe cutoff c)) [
    | inl left ↦ rw left (sweep_loop-other cutoff live db n id (λ c' q. h c' (inr q)))
    | inr stale ↦
        let e = orphan_event probe device c n in
        let db' = (append_event codec db e false).0 in
        let here = append_event-other codec db e false id (h c (inl refl) stale) in
        let rest = sweep_loop-other cutoff live db' (n + 1) id (λ c' q. h c' (inr q)) in
        elim (Result-cases (append_event codec db e false).1) [
          | inl bad ↦ rw (stale, bad, sweep_loop) here
          | inr (b, good) ↦ rw (stale, good, sweep_loop) (rest ∙ here)
        ]
  ]
