-- ===== src/Sync/Pull.antt =====
-- internal/sync/engine.go: reading what the peers have published. The storage, the decryption with
-- the engine's key and JSON are parameters; the storage stays as it is during a pull.
use shcr.Base.{
  ℕ, ◌+◌, ◌*◌, Bool, true, false, not, ◌&&◌, ◌||◌, Option, none, some, List, [], ◌∷◌, if◌then◌else◌,
  ◌==◌, ltb, length,
}
use shcr.Base.Bytes.{Bytes, codes, is_empty, bytes_eq, bytes_lt}
use shcr.Base.Int.{ℤ}
use shcr.Event.{Event, Codec}
use shcr.Store.Types.{Cursor, Db}
use shcr.Store.Log.{ok, bad_payload, insert_remote_event}
use shcr.Store.Cursors.{cursor, save_cursor}
use shcr.Histfile.Text.{is_blank}
use shcr.Histfile.Scanner.{scan_within}
use shcr.Sync.Keys.{manifest_key, batch_prefix}

pub record Manifest : Type 0 where
  pub latest_batch : Bytes
  pub updated_at : Bytes
  pub hostname_hint : Bytes

abbrev pub no_manifest : Manifest
no_manifest = record { latest_batch = []; updated_at = []; hostname_hint = [] }

-- The answer of `Get`, with ErrNotExist apart from the other errors.
pub data Fetched : Type 0 where
  not_exist broken : Fetched
  found : Bytes → Fetched

-- What a backend answers: `Get`, `List` and `Children`, with `none` for an error.
pub record Reader : Type 0 where
  pub get : Bytes → Fetched
  pub list : Bytes → Bytes → Option (List Bytes)
  pub children : Bytes → Option (List Bytes)

-- `crypto.Decrypt` with the engine's key and `json.Unmarshal`, with `none` for an error.
pub record Decoding : Type 0 where
  pub decrypt : Bytes → Option Bytes
  pub read_event : Bytes → Option Event
  pub read_manifest : Bytes → Option Manifest

-- The limit of the scanner in `applyBatch`.
abbrev pub batch_line_limit : ℕ
batch_line_limit = 8 * 1024 * 1024

-- What a loop has done: the store, how many events it inserted, and whether it stopped at an error.
pub record Progress : Type 0 where
  pub db : Db
  pub key : Bytes
  pub applied : ℕ
  pub failed : Bool

module _ (reader : Reader) (decoding : Decoding) (codec : Codec) where
  unfoldable pub load_manifest : Bytes → Option Manifest
  load_manifest device = elim (reader.get (manifest_key device)) [
    | Fetched.not_exist ↦ some no_manifest
    | Fetched.broken ↦ none
    | Fetched.found b ↦ decoding.read_manifest b
  ]

  -- The loop of `applyBatch` over the lines of a batch.
  unfoldable pub apply_lines : List Bytes → Db → ℕ → Db × ℕ × Bool
  apply_lines [] db n = (db, n, false)
  apply_lines (line ∷ lines) db n =
      if is_blank line then apply_lines lines db n else elim (decoding.read_event line) [
        | none ↦ (db, n, true)
        | some e ↦
            let (db', result) = insert_remote_event codec db e in
            elim result [
              | bad_payload ↦ (db', n, true)
              | ok inserted ↦ apply_lines lines db' (if inserted then n + 1 else n)
            ]
      ]

  -- The loop with `sc.Err()` behind it, over the lines of the scanner and whether it met one that is
  -- too long.
  unfoldable pub apply_scanned : List Bytes × Bool → Db → ℕ → Db × ℕ × Bool
  unfolding apply_lines
  apply_scanned (lines, too_long) db n =
      let (db', n', failed) = apply_lines lines db n in (db', n', failed || too_long)

  unfoldable pub apply_batch : Bytes → Db → Db × ℕ × Bool
  unfolding apply_scanned scan_within
  apply_batch key db = elim (reader.get key) [
    | Fetched.found sealed ↦ elim (decoding.decrypt sealed) [
      | none ↦ (db, 0, true)
      | some plain ↦ apply_scanned (scan_within batch_line_limit plain) db 0
    ]
    | _ ↦ (db, 0, true)
  ]

  -- The loop of `pullPeer` over the listed keys; `key` is the cursor's.
  unfoldable pub pull_keys : List Bytes → Progress → Progress
  unfolding apply_batch
  pull_keys [] p = p
  pull_keys (key ∷ keys) p =
      let (db', n, failed) = apply_batch key p.db in
      let stopped : Progress = record p { db = db'; failed = true } in
      let skipped = pull_keys keys p in
      let advanced = pull_keys keys (record p { db = db'; key = key; applied = p.applied + n }) in
      if not (bytes_lt p.key key) then skipped else if failed then stopped else advanced

  -- The cursor that `pullPeer` saves behind the loop.
  unfoldable pub next_cursor : Bytes → ℤ → Manifest → Cursor → Progress → Cursor
  next_cursor peer now m c p = record {
    peer_device_id = peer;
    last_batch_key = p.key;
    last_synced_at = if p.failed then c.last_synced_at else now;
    hostname_hint = if is_empty m.hostname_hint then c.hostname_hint else m.hostname_hint;
  }

  unfoldable pub pull_peer : Bytes → ℤ → Db → Db × ℕ × Bool
  unfolding load_manifest pull_keys next_cursor cursor save_cursor
  pull_peer peer now db = elim (load_manifest peer) [
    | none ↦ (db, 0, true)
    | some m ↦
        let c = cursor db peer in
        if is_empty m.latest_batch || not (bytes_lt c.last_batch_key m.latest_batch)
        then (db, 0, false)
        else elim (reader.list (batch_prefix peer) c.last_batch_key) [
          | none ↦ (db, 0, true)
          | some keys ↦
              let p =
                pull_keys keys
                  (record { db = db; key = c.last_batch_key; applied = 0; failed = false }) in
              (save_cursor p.db (next_cursor peer now m c p), p.applied, p.failed)
        ]
  ]

  unfoldable pub other_devices : Bytes → List Bytes → List Bytes
  other_devices device [] = []
  other_devices device (id ∷ ids) =
      if is_empty id || bytes_eq id device
      then other_devices device ids
      else id ∷ other_devices device ids

  unfoldable pub peers : Bytes → Option (List Bytes)
  unfolding other_devices
  peers device = elim (reader.children (codes "devices/")) [
    | none ↦ none
    | some ids ↦ some (other_devices device ids)
  ]

  -- The loop of `PullOnce`: the store, the total, and how many peers failed.
  unfoldable pub pull_peers : List Bytes → ℤ → Db → ℕ → ℕ → Db × ℕ × ℕ
  unfolding pull_peer
  pull_peers [] now db total failures = (db, total, failures)
  pull_peers (peer ∷ rest) now db total failures =
      let (db', n, failed) = pull_peer peer now db in
      pull_peers rest now db' (total + n) (if failed then failures + 1 else failures)

  unfoldable pub pull_once : Bytes → ℤ → Db → Db × ℕ × Bool
  unfolding peers pull_peers
  pull_once device now db = elim (peers device) [
    | none ↦ (db, 0, true)
    | some ids ↦
        let (db', total, failures) = pull_peers ids now db 0 0 in
        (db', total, ltb 0 failures && failures == length ids)
  ]
