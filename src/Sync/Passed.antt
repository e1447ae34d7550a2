-- ===== src/Sync/Passed.antt =====
-- The keys that the loop of `pullPeer` has passed are those of batches that are in the log.
use shcr.Base.{
  ◌+◌, true, false, some, List, [], ◌∷◌, ◌≡◌, refl, sym, ◌∙◌, inl, inr, Bool-cases, Option-cases,
  In, All-In, Bool, arith,
}
use shcr.Base.Bytes.{Bytes, bytes_lt}
use shcr.Base.Sort.{IsSorted}
use shcr.Event.{Codec}
use shcr.Store.Types.{Db}
use shcr.Histfile.Scanner.{scan_within, scan_within-scan_lines, scan_lines}
use shcr.Sync.Pull.{
  Reader, Fetched, Decoding, Progress, apply_lines, apply_scanned, apply_batch, pull_keys,
  batch_line_limit,
}
use shcr.Store.Growth.{Grows}
use shcr.Sync.Consumed.{
  LinesIn, true≢false, Consumed, LinesIn-Grows, apply_lines-Grows, apply_lines-LinesIn,
}

module _ (reader : Reader) (decoding : Decoding) (codec : Codec) where
  -- What a batch comes to: nothing that can be read, or its lines.
  data BatchOutcome (key : Bytes) (db : Db) : Type 0 where
    unread : apply_batch reader decoding codec key db ≡ (db, 0, true) → BatchOutcome key db
    read :
        (sealed plain : Bytes)
        → reader.get key ≡ Fetched.found sealed
        → decoding.decrypt sealed ≡ some plain
        → apply_batch reader decoding codec key db
          ≡ apply_scanned reader decoding codec (scan_within batch_line_limit plain) db 0
        → BatchOutcome key db

  decrypt-cases : (key : Bytes) (db : Db) (f : Fetched) → reader.get key ≡ f → BatchOutcome key db
  unfolding apply_batch
  decrypt-cases key db Fetched.not_exist e = unread (rw (e, apply_batch) refl)
  decrypt-cases key db Fetched.broken e = unread (rw (e, apply_batch) refl)
  decrypt-cases key db (Fetched.found sealed) e = elim (Option-cases (decoding.decrypt sealed)) [
    | inl bad ↦ unread (rw (e, bad, apply_batch) refl)
    | inr (plain, open_text) ↦ read sealed plain e open_text (rw (e, open_text, apply_batch) refl)
  ]

  scanned-Grows :
      (scan : List Bytes × Bool) (db : Db)
      → Grows db (apply_scanned reader decoding codec scan db 0).0
  unfolding apply_scanned
  scanned-Grows (lines, too_long) db = apply_lines-Grows reader decoding codec lines db 0

  scanned-LinesIn :
      (plain : Bytes) (db : Db)
      → (apply_scanned reader decoding codec (scan_within batch_line_limit plain) db 0).2 ≡ false
      → LinesIn reader decoding codec
          (scan_lines plain)
          (apply_scanned reader decoding codec (scan_within batch_line_limit plain) db 0).0
  unfolding apply_scanned
  scanned-LinesIn plain db h =
      let scan = scan_within batch_line_limit plain in
      let result = apply_lines reader decoding codec scan.0 db 0 in
      let both : (result.2 ≡ false) × (scan.1 ≡ false) = ground (arith, h) in
      rw (← scan_within-scan_lines batch_line_limit plain both.1)
        (apply_lines-LinesIn reader decoding codec scan.0 db 0 both.0)

  apply_batch-Grows :
      (key : Bytes) (db : Db) → Grows db (apply_batch reader decoding codec key db).0
  apply_batch-Grows key db id h = elim (decrypt-cases key db (reader.get key) refl) [
    | unread a ↦ rw a h
    | read _ plain _ _ a ↦ rw a (scanned-Grows (scan_within batch_line_limit plain) db id h)
  ]

  apply_batch-Consumed :
      (key : Bytes) (db : Db)
      → (apply_batch reader decoding codec key db).2 ≡ false
      → Consumed reader decoding codec key (apply_batch reader decoding codec key db).0
  apply_batch-Consumed key db h = elim (decrypt-cases key db (reader.get key) refl) [
    | unread a ↦ absurd (true≢false (rw a at h))
    | read sealed plain there open_text a ↦
        (sealed, plain, there, open_text, rw a (scanned-LinesIn plain db (rw a at h)))
  ]

  pub Consumed-Grows :
      (key : Bytes) (db db' : Db)
      → Grows db db'
      → Consumed reader decoding codec key db
      → Consumed reader decoding codec key db'
  Consumed-Grows key db db' g (sealed, plain, a, b, lines) =
      (sealed, plain, a, b, LinesIn-Grows reader decoding codec (scan_lines plain) db db' g lines)

  -- What one key of the listing does to the progress.
  data KeyOutcome (key : Bytes) (p : Progress) : Type 0 where
    skipped :
        bytes_lt p.key key ≡ false
        → ((keys : List Bytes)
            → pull_keys reader decoding codec (key ∷ keys) p
              ≡ pull_keys reader decoding codec keys p)
        → KeyOutcome key p
    halted :
        (q : Progress)
        → Grows p.db q.db
        → q.key ≡ p.key
        → ((keys : List Bytes) → pull_keys reader decoding codec (key ∷ keys) p ≡ q)
        → KeyOutcome key p
    moved :
        (q : Progress)
        → bytes_lt p.key key ≡ true
        → Grows p.db q.db
        → q.key ≡ key
        → Consumed reader decoding codec key q.db
        → ((keys : List Bytes)
            → pull_keys reader decoding codec (key ∷ keys) p
              ≡ pull_keys reader decoding codec keys q)
        → KeyOutcome key p

  key-cases : (key : Bytes) (p : Progress) → KeyOutcome key p
  unfolding pull_keys
  key-cases key p =
      let batch = apply_batch reader decoding codec key p.db in
      elim (Bool-cases (bytes_lt p.key key)) [
        | inr old ↦ skipped old (λ keys. rw (old, pull_keys) refl)
        | inl new ↦ elim (Bool-cases batch.2) [
          | inl bad ↦
              halted (record p { db = batch.0; failed = true }) (apply_batch-Grows key p.db) refl
                (λ keys. rw (new, bad, pull_keys) refl)
          | inr good ↦
              moved (record p { db = batch.0; key = key; applied = p.applied + batch.1 }) new
                (apply_batch-Grows key p.db) refl (apply_batch-Consumed key p.db good)
                (λ keys. rw (new, good, pull_keys) refl)
        ]
      ]

  pull_keys-Grows :
      (keys : List Bytes) (p : Progress) → Grows p.db (pull_keys reader decoding codec keys p).db
  pull_keys-Grows [] p id h = unfold pull_keys in h
  pull_keys-Grows (key ∷ keys) p id h = elim (key-cases key p) [
    | skipped _ a ↦ rw (a keys) (pull_keys-Grows keys p id h)
    | halted q g _ a ↦ rw (a keys) (g id h)
    | moved q _ g _ _ a ↦ rw (a keys) (pull_keys-Grows keys q id (g id h))
  ]

  pub pull_keys-Consumed :
      (keys : List Bytes) (p : Progress) (key : Bytes)
      → IsSorted bytes_lt keys
      → In key keys
      → bytes_lt p.key key ≡ true
      → bytes_lt (pull_keys reader decoding codec keys p).key key ≡ false
      → Consumed reader decoding codec key (pull_keys reader decoding codec keys p).db
  pull_keys-Consumed [] p key s h new passed = absurd h
  pull_keys-Consumed (k ∷ keys) p key s h new passed = elim (key-cases k p) [
    | skipped old a ↦
        let later : In key keys = elim h [
          | inl e ↦ absurd (true≢false (sym new ∙ (rw (sym e) at old)))
          | inr q ↦ q
        ] in
        rw (a keys) (pull_keys-Consumed keys p key s.1 later new (rw (a keys) at passed))
    | halted q _ same a ↦
        let passed' : bytes_lt p.key key ≡ false = rw (a keys, same) at passed in
        absurd (true≢false (sym new ∙ passed'))
    | moved q _ g at_key done a ↦ rw (a keys) (elim h [
      | inl e ↦
          Consumed-Grows key q.db (pull_keys reader decoding codec keys q).db
            (pull_keys-Grows keys q) (rw (sym e) at done)
      | inr rest ↦
          pull_keys-Consumed keys q key s.1 rest
            (rw at_key (All-In (λ y. bytes_lt k y ≡ true) key keys s.0 rest))
            (rw (a keys) at passed)
    ])
  ]
