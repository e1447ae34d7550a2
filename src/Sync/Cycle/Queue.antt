-- ===== src/Sync/Cycle/Queue.antt =====
-- What a pull and a whole cycle do to the events that wait for upload.
use shcr.Base.{
  ℕ, ◌+◌, true, false, not, ◌||◌, List, [], ◌∷◌, if◌then◌else◌, ◌≡◌, refl, ◌∙◌, inl, inr,
  Bool-cases, Option-cases,
}
use shcr.Base.Bytes.{Bytes, is_empty, bytes_lt}
use shcr.Base.Int.{ℤ}
use shcr.Event.{Codec}
use shcr.Store.Types.{Db}
use shcr.Store.Log.{append_event, pending}
use shcr.Store.Cursors.{cursor, save_cursor}
use shcr.Store.Outbox.{remote_never_pending}
use shcr.Store.Growth.{Result-cases}
use shcr.Histfile.Text.{is_blank}
use shcr.Histfile.Scanner.{scan_within}
use shcr.Sync.Keys.{batch_prefix}
use shcr.Sync.Pull.{
  Reader, Fetched, Decoding, Progress, apply_lines, apply_scanned, batch_line_limit, apply_batch,
  pull_keys, pull_peer, pull_peers, pull_once, load_manifest, peers,
}

-- What waits for upload stays as it is.
abbrev Keeps : Bytes → Db → Db → Type 0
Keeps device db db' = pending device db'.events ≡ pending device db.events

module _ (device : Bytes) (reader : Reader) (decoding : Decoding) (codec : Codec) where
  apply_lines-Keeps :
      (lines : List Bytes) (db : Db) (n : ℕ)
      → Keeps device db (apply_lines reader decoding codec lines db n).0
  unfolding apply_lines
  apply_lines-Keeps [] db n = refl
  apply_lines-Keeps (line ∷ lines) db n = elim (Bool-cases (is_blank line)) [
    | inl blank ↦ rw blank (apply_lines-Keeps lines db n)
    | inr text ↦ elim (Option-cases (decoding.read_event line)) [
      | inl bad ↦ rw (text, bad) refl
      | inr (e, read) ↦
          let same = remote_never_pending codec db e device in
          let db' = (append_event codec db e true).0 in
          elim (Result-cases (append_event codec db e true).1) [
            | inl bad ↦ rw (text, read, bad) same
            | inr (inserted, taken) ↦
                rw (text, read, taken)
                  (apply_lines-Keeps lines db' (if inserted then n + 1 else n) ∙ same)
          ]
    ]
  ]

  fetched-Keeps :
      (key : Bytes) (db : Db) (fetched : Fetched)
      → reader.get key ≡ fetched
      → Keeps device db (apply_batch reader decoding codec key db).0
  unfolding apply_batch
  fetched-Keeps key db Fetched.not_exist got = rw (got, apply_batch) refl
  fetched-Keeps key db Fetched.broken got = rw (got, apply_batch) refl
  fetched-Keeps key db (Fetched.found sealed) got = elim (Option-cases (decoding.decrypt sealed)) [
    | inl bad ↦ rw (got, bad, apply_batch) refl
    | inr (plain, opened) ↦
        rw (got, opened, apply_batch)
          (unfold apply_scanned in apply_lines-Keeps (scan_within batch_line_limit plain).0 db 0)
  ]

  apply_batch-Keeps :
      (key : Bytes) (db : Db) → Keeps device db (apply_batch reader decoding codec key db).0
  apply_batch-Keeps key db = fetched-Keeps key db (reader.get key) refl

  pull_keys-Keeps :
      (keys : List Bytes) (p : Progress)
      → Keeps device p.db (pull_keys reader decoding codec keys p).db
  unfolding pull_keys
  pull_keys-Keeps [] p = refl
  pull_keys-Keeps (key ∷ keys) p =
      let same = apply_batch-Keeps key p.db in
      let result = apply_batch reader decoding codec key p.db in
      let later =
        pull_keys-Keeps keys
          (record p { db = result.0; key = key; applied = p.applied + result.1 }) in
      elim (Bool-cases (bytes_lt p.key key)) [
        | inr passed ↦ rw passed (pull_keys-Keeps keys p)
        | inl fresh ↦ elim (Bool-cases result.2) [
          | inl fails ↦ rw (fresh, fails) same
          | inr goes ↦ rw (fresh, goes) (later ∙ same)
        ]
      ]

  pull_peer-Keeps :
      (peer : Bytes) (now : ℤ) (db : Db)
      → Keeps device db (pull_peer reader decoding codec peer now db).0
  unfolding pull_peer save_cursor
  pull_peer-Keeps peer now db = elim (Option-cases (load_manifest reader decoding codec peer)) [
    | inl bad ↦ rw (bad, pull_peer) refl
    | inr (m, loaded) ↦
        let c = cursor db peer in
        let start : Progress = record {
          db = db;
          key = c.last_batch_key;
          applied = 0;
          failed = false;
        } in
        elim (Bool-cases
          (is_empty m.latest_batch || not (bytes_lt c.last_batch_key m.latest_batch))) [
            | inl known ↦ rw (loaded, known, pull_peer) refl
            | inr news ↦ elim (Option-cases (reader.list (batch_prefix peer) c.last_batch_key)) [
              | inl bad ↦ rw (loaded, news, bad, pull_peer) refl
              | inr (keys, there) ↦ rw (loaded, news, there, pull_peer) (pull_keys-Keeps keys start)
            ]
          ]
  ]

  pull_peers-Keeps :
      (ids : List Bytes) (now : ℤ) (db : Db) (total failures : ℕ)
      → Keeps device db (pull_peers reader decoding codec ids now db total failures).0
  unfolding pull_peers
  pull_peers-Keeps [] now db total failures = refl
  pull_peers-Keeps (peer ∷ rest) now db total failures =
      let result = pull_peer reader decoding codec peer now db in
      pull_peers-Keeps rest now result.0 (total + result.1)
        (if result.2 then failures + 1 else failures)
      ∙ pull_peer-Keeps peer now db

  pub pull_once-Keeps :
      (own : Bytes) (now : ℤ) (db : Db)
      → Keeps device db (pull_once reader decoding codec own now db).0
  unfolding pull_once
  pull_once-Keeps own now db = elim (Option-cases (peers reader decoding codec own)) [
    | inl bad ↦ rw (bad, pull_once) refl
    | inr (ids, found) ↦ rw (found, pull_once) (pull_peers-Keeps ids now db 0 0)
  ]
