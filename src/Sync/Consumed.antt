-- ===== src/Sync/Consumed.antt =====
-- The cursor passes no batch that was not applied in full.
use shcr.Base.{
  ℕ, ◌+◌, Bool, true, false, some, List, [], ◌∷◌, if◌then◌else◌, ◌≡◌, refl, sym, ◌∙◌, ◌⊎◌, inl, inr,
  Bool-cases, Option-cases,
}
use shcr.Base.Bytes.{Bytes}
use shcr.Event.{Event, Codec}
use shcr.Store.Types.{Db}
use shcr.Store.Log.{ok, bad_payload, has_event, append_event}
use shcr.Store.Replay.{recorded}
use shcr.Store.Growth.{Result-cases, Grows, append_event-Grows}
use shcr.Histfile.Text.{is_blank}
use shcr.Histfile.Scanner.{scan_lines}
use shcr.Sync.Pull.{Reader, Fetched, Decoding, apply_lines}

ok≢bad : {b : Bool} → ok b ≡ bad_payload → ⊥
ok≢bad h = cc h

pub true≢false : true ≡ false → ⊥
true≢false h = cc h

module _ (reader : Reader) (decoding : Decoding) (codec : Codec) where
  -- Every line of a text is blank or an event of the log.
  abbrev pub LinesIn : List Bytes → Db → Type 0
  LinesIn [] db = Unit
  LinesIn (line ∷ lines) db =
      ((is_blank line ≡ true)
        ⊎ ((e : Event) × (decoding.read_event line ≡ some e)
            × (has_event e.event_id db.events ≡ true)))
      × LinesIn lines db

  -- The batch could be read, and all its events are in the log.
  abbrev pub Consumed : Bytes → Db → Type 0
  Consumed key db =
      (sealed : Bytes) × (plain : Bytes) × (reader.get key ≡ Fetched.found sealed)
      × (decoding.decrypt sealed ≡ some plain)
      × LinesIn (scan_lines plain) db

  -- What one line of a batch does.
  data LineOutcome (line : Bytes) (db : Db) : Type 0 where
    blank :
        is_blank line ≡ true
        → ((lines : List Bytes) (n : ℕ)
            → apply_lines reader decoding codec (line ∷ lines) db n
              ≡ apply_lines reader decoding codec lines db n)
        → LineOutcome line db
    stopped :
        (db' : Db)
        → Grows db db'
        → ((lines : List Bytes) (n : ℕ)
            → apply_lines reader decoding codec (line ∷ lines) db n ≡ (db', n, true))
        → LineOutcome line db
    taken :
        (e : Event) (db' : Db) (inserted : Bool)
        → decoding.read_event line ≡ some e
        → has_event e.event_id db'.events ≡ true
        → Grows db db'
        → ((lines : List Bytes) (n : ℕ)
            → apply_lines reader decoding codec (line ∷ lines) db n
              ≡ apply_lines reader decoding codec lines db' (if inserted then n + 1 else n))
        → LineOutcome line db

  line-cases : (line : Bytes) (db : Db) → LineOutcome line db
  unfolding apply_lines
  line-cases line db = elim (Bool-cases (is_blank line)) [
    | inl b ↦ blank b (λ lines n. rw (b, apply_lines) refl)
    | inr text ↦ elim (Option-cases (decoding.read_event line)) [
      | inl bad ↦ stopped db (λ id h. h) (λ lines n. rw (text, bad, apply_lines) refl)
      | inr (e, read) ↦
          let db' = (append_event codec db e true).0 in
          elim (Result-cases (append_event codec db e true).1) [
            | inl bad ↦
                stopped db' (append_event-Grows codec db e true)
                  (λ lines n. rw (text, read, bad, apply_lines) refl)
            | inr (inserted, ok_result) ↦
                taken e db' inserted read
                  (recorded codec db e true (λ bad. absurd (ok≢bad (sym ok_result ∙ bad))))
                  (append_event-Grows codec db e true)
                  (λ lines n. rw (text, read, ok_result, apply_lines) refl)
          ]
    ]
  ]

  pub apply_lines-Grows :
      (lines : List Bytes) (db : Db) (n : ℕ)
      → Grows db (apply_lines reader decoding codec lines db n).0
  apply_lines-Grows [] db n id h = unfold apply_lines in h
  apply_lines-Grows (line ∷ lines) db n id h = elim (line-cases line db) [
    | blank _ a ↦ rw (a lines n) (apply_lines-Grows lines db n id h)
    | stopped db' g a ↦ rw (a lines n) (g id h)
    | taken e db' inserted _ _ g a ↦
        rw (a lines n) (apply_lines-Grows lines db' (if inserted then n + 1 else n) id (g id h))
  ]

  pub LinesIn-Grows :
      (lines : List Bytes) (db db' : Db) → Grows db db' → LinesIn lines db → LinesIn lines db'
  LinesIn-Grows [] db db' g h = tt
  LinesIn-Grows (line ∷ lines) db db' g (here, rest) = (
    elim here [ inl b ↦ inl b | inr (e, r, there) ↦ inr (e, r, g e.event_id there) ],
    LinesIn-Grows lines db db' g rest,
  )

  pub apply_lines-LinesIn :
      (lines : List Bytes) (db : Db) (n : ℕ)
      → (apply_lines reader decoding codec lines db n).2 ≡ false
      → LinesIn lines (apply_lines reader decoding codec lines db n).0
  apply_lines-LinesIn [] db n h = tt
  apply_lines-LinesIn (line ∷ lines) db n h = elim (line-cases line db) [
    | blank b a ↦
        let rest = apply_lines-LinesIn lines db n (rw (a lines n) at h) in
        rw (a lines n) (inl b, rest)
    | stopped db' g a ↦ absurd (true≢false (rw (a lines n) at h))
    | taken e db' inserted read there _ a ↦
        let m = if inserted then n + 1 else n in
        let rest = apply_lines-LinesIn lines db' m (rw (a lines n) at h) in
        rw (a lines n) (inr (e, read, apply_lines-Grows lines db' m e.event_id there), rest)
  ]
