-- ===== src/Sync/Drain.antt =====
-- The loop of `PushOnce` empties the queue.
use shcr.Base.{
  ℕ, zero, suc, ◌+◌, ◌≤◌, ◌<◌, Bool, true, none, some, List, [], ◌∷◌, take, length, ltb, ◌≡◌, refl,
  ap, ◌∙◌, inl, inr, ◌⊎◌, ltb→lt, arith, Bool-cases, Option-cases, In,
}
use shcr.Base.Bytes.{Bytes, bytes_eq_refl}
use shcr.Base.Int.{pos}
use shcr.Base.Sort.{sort, In-sort}
use shcr.Event.{Event, Codec}
use shcr.Store.Types.{Db}
use shcr.Store.Recompute.{before}
use shcr.Store.Log.{pending, unsynced_events, mark_synced}
use shcr.Store.Outbox.{has_id, without_ids, mark_synced_exact}
use shcr.Sync.Keys.{TimeLayout}
use shcr.Sync.Pull.{Decoding}
use shcr.Sync.Push.{
  Storage, Encoding, Engine, Draw, Ending, drained, push_error, cancelled, ids_of, push_events,
  push_batch, push_once, behind_batch, publish, seal, max_events_per_batch,
}

has_id-In : (e : Event) (es : List Event) → In e es → has_id e.event_id (ids_of es) ≡ true
unfolding has_id
has_id-In e [] h = absurd h
has_id-In e (x ∷ es) (inl q) = rw q (rw (bytes_eq_refl x.event_id) refl)
has_id-In e (x ∷ es) (inr q) = ground (arith, has_id-In e es q)

without_ids-all :
    (ids : List Bytes) (es : List Event)
    → ((e : Event) → In e es → has_id e.event_id ids ≡ true)
    → without_ids ids es ≡ []
unfolding without_ids
without_ids-all ids [] h = refl
without_ids-all ids (e ∷ es) h = rw (h e (inl refl)) (without_ids-all ids es (λ a q. h a (inr q)))

length-without_ids : (ids : List Bytes) (es : List Event) → length (without_ids ids es) ≤ length es
unfolding without_ids
length-without_ids ids [] = omega arith
length-without_ids ids (e ∷ es) = ground (arith, length-without_ids ids es)

-- Removing an event that is there shortens the list.
without_ids-shorter :
    (ids : List Bytes) (e : Event) (es : List Event)
    → In e es
    → has_id e.event_id ids ≡ true
    → length (without_ids ids es) < length es
unfolding without_ids
without_ids-shorter ids e [] h there = absurd h
without_ids-shorter ids e (x ∷ es) (inl q) there =
    let listed : has_id x.event_id ids ≡ true = rw q at there in
    let rest = length-without_ids ids es in rw listed (omega arith)
without_ids-shorter ids e (x ∷ es) (inr q) there =
    let rest = without_ids-shorter ids e es q there in ground arith

take-short {ℓ} : {A : Type ℓ} (n : ℕ) (l : List A) → length (take n l) < n → take n l ≡ l
take-short zero l h = absurd (omega arith)
take-short (suc n) [] h = refl
take-short (suc n) (x ∷ l) h = ap (◌∷◌ x) (take-short n l (omega arith))

In-take : (e : Event) (n : ℕ) (l : List Event) → In e (take n l) → In e l
In-take e zero l h = absurd h
In-take e (suc n) [] h = absurd h
In-take e (suc n) (x ∷ l) (inl q) = inl q
In-take e (suc n) (x ∷ l) (inr q) = inr (In-take e n l q)

no_members : (l : List Event) → ((e : Event) → ¬ In e l) → l ≡ []
no_members [] h = refl
no_members (e ∷ l) h = absurd (h e (inl refl))

-- What UnsyncedEvents returns waits, and a short answer is all that waits.
unsynced_events-In :
    (db : Db) (device : Bytes) (e : Event)
    → In e (unsynced_events db device (pos max_events_per_batch))
    → In e (pending device db.events)
unsynced_events-In db device e h = (In-sort before e (pending device db.events)).0 (
    In-take e max_events_per_batch (sort before (pending device db.events))
      (unfold unsynced_events in h))

In-unsynced_events :
    (db : Db) (device : Bytes) (e : Event)
    → length (unsynced_events db device (pos max_events_per_batch)) < max_events_per_batch
    → In e (pending device db.events)
    → In e (unsynced_events db device (pos max_events_per_batch))
unfolding unsynced_events
In-unsynced_events db device e short h =
    rw (take-short max_events_per_batch (sort before (pending device db.events)) short)
      ((In-sort before e (pending device db.events)).1 h)

nothing_waits :
    (db : Db) (device : Bytes)
    → unsynced_events db device (pos max_events_per_batch) ≡ []
    → pending device db.events ≡ []
nothing_waits db device none_there = no_members (pending device db.events) (λ e h.
    let found = In-unsynced_events db device e (rw none_there (omega arith)) h in
    rw none_there at found)

-- A batch takes events from the queue, and all of them where it is a short one.
sent_shorter :
    (db : Db) (device : Bytes) (e : Event) (es : List Event)
    → unsynced_events db device (pos max_events_per_batch) ≡ e ∷ es
    → length (pending device (mark_synced db (ids_of (e ∷ es))).events)
      < length (pending device db.events)
sent_shorter db device e es there =
    let left = (mark_synced_exact db (ids_of (e ∷ es)) device).0 in
    rw left (
      without_ids-shorter (ids_of (e ∷ es)) e (pending device db.events)
        (unsynced_events-In db device e (rw there (inl refl))) (has_id-In e (e ∷ es) (inl refl)))

sent_all :
    (db : Db) (device : Bytes) (e : Event) (es : List Event)
    → unsynced_events db device (pos max_events_per_batch) ≡ e ∷ es
    → length (e ∷ es) < max_events_per_batch
    → pending device (mark_synced db (ids_of (e ∷ es))).events ≡ []
sent_all db device e es there short =
    let left = (mark_synced_exact db (ids_of (e ∷ es)) device).0 in
    left
    ∙ without_ids-all (ids_of (e ∷ es)) (pending device db.events) (λ a h.
      let found = In-unsynced_events db device a (rw there short) h in
      has_id-In a (e ∷ es) (rw there at found))

module _ {S : Type 0} (storage : Storage S) (encoding : Encoding) (decoding : Decoding)
    (codec : Codec) (layout : TimeLayout) (engine : Engine) where
  abbrev waiting : Db → List Event
  waiting db = pending engine.device_id db.events

  -- What one batch comes to.
  pub data BatchOutcome (objects : S) (db : Db) (draw : Draw) : Type 0 where
    idle :
        waiting db ≡ []
        → push_batch storage encoding decoding codec layout engine objects db draw
          ≡ (objects, db, some 0)
        → BatchOutcome objects db draw
    stuck :
        (objects' : S)
        → push_batch storage encoding decoding codec layout engine objects db draw
          ≡ (objects', db, none)
        → BatchOutcome objects db draw
    sent :
        (objects' : S) (e : Event) (es : List Event) (key sealed : Bytes)
        → unsynced_events db engine.device_id (pos max_events_per_batch) ≡ e ∷ es
        → seal storage encoding decoding codec layout engine objects (e ∷ es) draw
          ≡ some (key, sealed)
        → publish storage encoding decoding codec layout engine objects key sealed draw
          ≡ (objects', true)
        → push_batch storage encoding decoding codec layout engine objects db draw
          ≡ (objects', mark_synced db (ids_of (e ∷ es)), some (length (e ∷ es)))
        → BatchOutcome objects db draw

  events-cases :
      (objects : S) (db : Db) (draw : Draw) (es : List Event)
      → unsynced_events db engine.device_id (pos max_events_per_batch) ≡ es
      → BatchOutcome objects db draw
  unfolding push_batch push_events
  events-cases objects db draw [] none_waits =
      idle (nothing_waits db engine.device_id none_waits) (rw (none_waits, push_batch) refl)
  events-cases objects db draw (e ∷ es) some_wait =
      elim (Option-cases
        (seal storage encoding decoding codec layout engine objects (e ∷ es) draw)) [
          | inl bad ↦ stuck objects (rw (some_wait, bad, push_batch, push_events) refl)
          | inr ((key, sealed), made) ↦
              let result =
                publish storage encoding decoding codec layout engine objects key sealed draw in
              elim (Bool-cases result.1) [
                | inl up ↦
                    sent result.0 e es key sealed some_wait made (ap (λ u. (result.0, u)) up)
                      (rw (some_wait, made, up, push_batch, push_events) refl)
                | inr down ↦
                    stuck result.0 (rw (some_wait, made, down, push_batch, push_events) refl)
              ]
        ]

  pub batch-cases : (objects : S) (db : Db) (draw : Draw) → BatchOutcome objects db draw
  batch-cases objects db draw = events-cases objects db draw _ refl

  abbrev after : List (Draw × Bool) → S → Db → ℕ → S × Db × ℕ × Ending
  after rounds objects db total =
      push_once storage encoding decoding codec layout engine rounds objects db total

  -- The three ways in which the loop ends, told apart.
  abbrev pub Ended : S × Db × ℕ × Ending → Type 0
  Ended result =
      (result.3 ≡ push_error)
      ⊎ (result.3 ≡ cancelled)
      ⊎ ((result.3 ≡ drained) × (waiting result.1 ≡ []))

  -- The loop of `PushOnce` ends within as many rounds as events wait, and one more: at an error of a
  -- batch, at a cancelled context, or else with no event of the device left waiting.
  pub push_once_drains :
      (rounds : List (Draw × Bool)) (objects : S) (db : Db) (total : ℕ)
      → length (pending engine.device_id db.events) < length rounds
      → Ended (push_once storage encoding decoding codec layout engine rounds objects db total)
  push_once_drains [] objects db total enough = absurd (omega arith)
  push_once_drains ((draw, is_cancelled) ∷ rounds) objects db total enough =
      elim (batch-cases objects db draw) [
        | idle none_waits a ↦
            let step : after ((draw, is_cancelled) ∷ rounds) objects db total
                ≡ (objects, db, total + 0, drained) =
              unfold push_once behind_batch in
              ap (behind_batch is_cancelled total (after rounds)) a in
            rw step (inr (inr (refl, none_waits)))
        | stuck objects' a ↦
            let step : after ((draw, is_cancelled) ∷ rounds) objects db total
                ≡ (objects', db, total, push_error) =
              unfold push_once behind_batch in
              ap (behind_batch is_cancelled total (after rounds)) a in
            rw step (inl refl)
        | sent objects' e es key sealed there _ _ a ↦
            let n = length (e ∷ es) in
            let marked = mark_synced db (ids_of (e ∷ es)) in
            let fewer = sent_shorter db engine.device_id e es there in
            let rest =
              push_once_drains rounds objects' (mark_synced db (ids_of (e ∷ es))) (total + n)
                (omega arith) in
            elim (Bool-cases (ltb n max_events_per_batch)) [
              | inl short ↦
                  let none_left =
                    sent_all db engine.device_id e es there (ltb→lt n max_events_per_batch short) in
                  let step : after ((draw, is_cancelled) ∷ rounds) objects db total
                      ≡ (objects', marked, total + n, drained) =
                    unfold push_once in
                    ap (behind_batch is_cancelled total (after rounds)) a
                    ∙ (unfold behind_batch in rw short refl) in
                  rw step (inr (inr (refl, none_left)))
              | inr full ↦ elim (Bool-cases is_cancelled) [
                | inl stop ↦
                    let step : after ((draw, is_cancelled) ∷ rounds) objects db total
                        ≡ (objects', marked, total + n, cancelled) =
                      unfold push_once in
                      ap (behind_batch is_cancelled total (after rounds)) a
                      ∙ (unfold behind_batch in rw (full, stop) refl) in
                    rw step (inr (inl refl))
                | inr go ↦
                    let step : after ((draw, is_cancelled) ∷ rounds) objects db total
                        ≡ after rounds objects' marked (total + n) =
                      unfold push_once in
                      ap (behind_batch is_cancelled total (after rounds)) a
                      ∙ (unfold behind_batch in rw (full, go) refl) in
                    rw step rest
              ]
            ]
      ]
