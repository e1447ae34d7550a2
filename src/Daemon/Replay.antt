-- ===== src/Daemon/Replay.antt =====
-- What the lines that a daemon takes in leave in the store, whichever way they came.
use shcr.Base.{
  ℕ, true, false, List, [], ◌∷◌, ◌++◌, if◌then◌else◌, ◌≡◌, refl, sym, ap, ◌∙◌, ◌⊎◌, inl, inr, arith,
  Bool-cases,
}
use shcr.Base.Bytes.{Bytes, is_empty}
use shcr.Event.{Codec}
use shcr.Redact.{Rule}
use shcr.Store.Types.{Db}
use shcr.Store.Log.{append_event, has_event}
use shcr.Store.Materialized.{IsView, append_event-IsView}
use shcr.Store.Delivery.{readable}
use shcr.Store.Replay.{append_report, recorded}
use shcr.Store.Growth.{Grows, append_event-Grows, Result-cases}
use shcr.Daemon.{
  Json, State, Incoming, incoming, ingest, take_in, trigger, handle_conn, drain_lines,
}

-- What a line that has been understood does to the store.
unfoldable pub stored : Codec → Incoming → Db → Db
stored codec (Incoming.append e) db = (append_event codec db e false).0
stored codec _ db = db

-- Nothing is left to do for the line.
abbrev pub Settled : Codec → Incoming → Db → Type 0
Settled codec (Incoming.append e) db =
    (has_event e.event_id db.events ≡ true) ⊎ (readable codec e ≡ false)
Settled codec _ db = Unit

take_in-stored :
    (codec : Codec) (d : State) (i : Incoming) → (take_in codec d i).0.db ≡ stored codec i d.db
unfolding take_in stored trigger
take_in-stored codec d (Incoming.nudge reason) = refl
take_in-stored codec d (Incoming.refuse fault) = refl
take_in-stored codec d Incoming.skipped = refl
take_in-stored codec d (Incoming.append e) =
    elim (Result-cases (append_event codec d.db e false).1) [
      | inl bad ↦ rw (bad, take_in) refl
      | inr (b, good) ↦ rw (good, take_in) refl
    ]

stored-IsView :
    (codec : Codec) (i : Incoming) (db : Db) → IsView codec db → IsView codec (stored codec i db)
unfolding stored
stored-IsView codec (Incoming.append e) db v = append_event-IsView codec db e false v
stored-IsView codec (Incoming.nudge _) db v = v
stored-IsView codec (Incoming.refuse _) db v = v
stored-IsView codec Incoming.skipped db v = v

stored-Grows : (codec : Codec) (i : Incoming) (db : Db) → Grows db (stored codec i db)
unfolding stored
stored-Grows codec (Incoming.append e) db = append_event-Grows codec db e false
stored-Grows codec (Incoming.nudge _) db = λ id h. h
stored-Grows codec (Incoming.refuse _) db = λ id h. h
stored-Grows codec Incoming.skipped db = λ id h. h

Settled-stored :
    (codec : Codec) (i : Incoming) (db : Db) → IsView codec db → Settled codec i (stored codec i db)
unfolding stored
Settled-stored codec (Incoming.append e) db v = elim (Bool-cases (readable codec e)) [
  | inr unfit ↦ inr unfit
  | inl fit ↦
      inl (recorded codec db e false (λ bad. ground (arith, append_report codec db e false v)))
]
Settled-stored codec (Incoming.nudge _) db v = tt
Settled-stored codec (Incoming.refuse _) db v = tt
Settled-stored codec Incoming.skipped db v = tt

-- What is settled is not done again.
stored-Settled :
    (codec : Codec) (i : Incoming) (db : Db)
    → IsView codec db
    → Settled codec i db
    → stored codec i db ≡ db
unfolding stored
stored-Settled codec (Incoming.append e) db v s =
    (append_report codec db e false v).1 (λ new. ground (arith, append_report codec db e false v))
stored-Settled codec (Incoming.nudge _) db v s = refl
stored-Settled codec (Incoming.refuse _) db v s = refl
stored-Settled codec Incoming.skipped db v s = refl

Settled-Grows :
    (codec : Codec) (i : Incoming) (db db' : Db)
    → Grows db db'
    → Settled codec i db
    → Settled codec i db'
Settled-Grows codec (Incoming.append e) db db' g (inl there) = inl (g e.event_id there)
Settled-Grows codec (Incoming.append e) db db' g (inr unfit) = inr unfit
Settled-Grows codec (Incoming.nudge _) db db' g s = s
Settled-Grows codec (Incoming.refuse _) db db' g s = s
Settled-Grows codec Incoming.skipped db db' g s = s

module _ (json : Json) (codec : Codec) (rules : List Rule) where
  unfoldable pub taken : Bytes → Db → Db
  unfolding stored
  taken line db = if is_empty line then db else stored codec (incoming json codec rules line) db

  unfoldable pub replay : List Bytes → Db → Db
  unfolding taken
  replay [] db = db
  replay (line ∷ lines) db = replay lines (taken line db)

  ingest-stored :
      (d : State) (line : Bytes)
      → (ingest json codec rules d line).0.db ≡ stored codec (incoming json codec rules line) d.db
  unfolding ingest
  ingest-stored d line = take_in-stored codec d (incoming json codec rules line)

  pub handle_conn-replay :
      (lines : List Bytes) (d : State)
      → (handle_conn json codec rules lines d).db ≡ replay lines d.db
  unfolding handle_conn replay taken
  handle_conn-replay [] d = refl
  handle_conn-replay (line ∷ lines) d = elim (Bool-cases (is_empty line)) [
    | inl none_there ↦ rw none_there (handle_conn-replay lines d)
    | inr text ↦ rw text (
        handle_conn-replay lines (ingest json codec rules d line).0
        ∙ ap (replay lines) (ingest-stored d line))
  ]

  pub drain_lines-replay :
      (lines : List Bytes) (d : State) (n : ℕ)
      → (drain_lines json codec rules lines d n).0.db ≡ replay lines d.db
  unfolding drain_lines replay taken
  drain_lines-replay [] d n = refl
  drain_lines-replay (line ∷ lines) d n = elim (Bool-cases (is_empty line)) [
    | inl none_there ↦ rw none_there (drain_lines-replay lines d n)
    | inr text ↦ rw text (
        drain_lines-replay lines (ingest json codec rules d line).0 _
        ∙ ap (replay lines) (ingest-stored d line))
  ]

  pub replay-append :
      (front back : List Bytes) (db : Db)
      → replay (front ++ back) db ≡ replay back (replay front db)
  unfolding replay
  replay-append [] back db = refl
  replay-append (line ∷ front) back db = replay-append front back (taken line db)

  pub replay-IsView :
      (lines : List Bytes) (db : Db) → IsView codec db → IsView codec (replay lines db)
  unfolding replay taken
  replay-IsView [] db v = v
  replay-IsView (line ∷ lines) db v = elim (Bool-cases (is_empty line)) [
    | inl none_there ↦ rw none_there (replay-IsView lines db v)
    | inr text ↦
        let i = incoming json codec rules line in
        rw text (replay-IsView lines (stored codec i db) (stored-IsView codec i db v))
  ]

  taken-Grows : (line : Bytes) (db : Db) → Grows db (taken line db)
  unfolding taken
  taken-Grows line db = elim (Bool-cases (is_empty line)) [
    | inl none_there ↦ rw none_there (λ id h. h)
    | inr text ↦ rw text (stored-Grows codec (incoming json codec rules line) db)
  ]

  replay-Grows : (lines : List Bytes) (db : Db) → Grows db (replay lines db)
  unfolding replay
  replay-Grows [] db id h = h
  replay-Grows (line ∷ lines) db id h =
      replay-Grows lines (taken line db) id (taken-Grows line db id h)

  -- Nothing is left to do for any of the lines.
  abbrev AllSettled : List Bytes → Db → Type 0
  AllSettled [] db = Unit
  AllSettled (line ∷ lines) db =
      ((is_empty line ≡ true) ⊎ Settled codec (incoming json codec rules line) db)
      × AllSettled lines db

  replay-AllSettled :
      (lines : List Bytes) (db : Db) → IsView codec db → AllSettled lines (replay lines db)
  unfolding replay taken
  replay-AllSettled [] db v = tt
  replay-AllSettled (line ∷ lines) db v = elim (Bool-cases (is_empty line)) [
    | inl none_there ↦ rw none_there (inl refl, replay-AllSettled lines db v)
    | inr text ↦
        let i = incoming json codec rules line in
        let db' = stored codec i db in
        rw text (
          inr (
              Settled-Grows codec i db' (replay lines db') (replay-Grows lines db')
                (Settled-stored codec i db v)),
          replay-AllSettled lines db' (stored-IsView codec i db v),
        )
  ]

  replay_settled :
      (lines : List Bytes) (db : Db) → IsView codec db → AllSettled lines db → replay lines db ≡ db
  unfolding replay taken
  replay_settled [] db v s = refl
  replay_settled (line ∷ lines) db v (inl none_there, s) =
      rw none_there (replay_settled lines db v s)
  replay_settled (line ∷ lines) db v (inr here, s) = elim (Bool-cases (is_empty line)) [
    | inl none_there ↦ rw none_there (replay_settled lines db v s)
    | inr text ↦
        let i = incoming json codec rules line in
        rw (text, stored-Settled codec i db v here) (replay_settled lines db v s)
  ]

  -- Lines that were taken in once already make no difference.
  pub replay_again :
      (front back : List Bytes) (db : Db)
      → IsView codec db
      → replay (front ++ back) (replay front db) ≡ replay (front ++ back) db
  replay_again front back db v =
      replay-append front back (replay front db)
      ∙ ap (replay back) (
          replay_settled front (replay front db) (replay-IsView front db v)
            (replay-AllSettled front db v))
      ∙ sym (replay-append front back db)
