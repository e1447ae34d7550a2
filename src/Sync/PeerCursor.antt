-- ===== src/Sync/PeerCursor.antt =====
-- `pullPeer`: what the cursor has passed is in the log, whatever of the run failed.
use shcr.Base.{
  ◌||◌, ℕ, Bool, true, false, not, some, List, ◌≡◌, refl, sym, ◌∙◌, inl, inr, Bool-cases,
  Option-cases, In,
}
use shcr.Base.Bytes.{Bytes, bytes_lt, is_empty, bytes_eq_refl}
use shcr.Base.Int.{ℤ}
use shcr.Base.Sort.{IsSorted}
use shcr.Base.Table.{lookup-upsert}
use shcr.Event.{Codec}
use shcr.Store.Types.{Db, Cursor}
use shcr.Store.Cursors.{cursor, save_cursor}
use shcr.Sync.Keys.{batch_prefix}
use shcr.Sync.Pull.{
  Reader, Decoding, Progress, Manifest, load_manifest, pull_keys, next_cursor, pull_peer,
}
use shcr.Store.Growth.{Grows}
use shcr.Sync.Consumed.{true≢false, Consumed}
use shcr.Sync.Passed.{Consumed-Grows, pull_keys-Consumed}

cursor-save_cursor :
    (db : Db) (c : Cursor) (peer : Bytes)
    → c.peer_device_id ≡ peer
    → cursor (save_cursor db c) peer ≡ c
unfolding cursor save_cursor
cursor-save_cursor db c peer e =
    rw (lookup-upsert c.peer_device_id peer c db.sync_cursors, e, bytes_eq_refl peer, cursor) refl

abbrev start : Bytes → Db → Progress
start peer db = record {
  db = db;
  key = (cursor db peer).last_batch_key;
  applied = 0;
  failed = false;
}

module _ (reader : Reader) (decoding : Decoding) (codec : Codec) where
  -- What one pull of a peer comes to: the cursor stays, or the listed keys are worked through.
  data PeerOutcome (peer : Bytes) (now : ℤ) (db : Db) : Type 0 where
    unmoved :
        (n : ℕ) (bad : Bool)
        → pull_peer reader decoding codec peer now db ≡ (db, n, bad)
        → PeerOutcome peer now db
    worked :
        (m : Manifest) (keys : List Bytes) (p : Progress)
        → reader.list (batch_prefix peer) (cursor db peer).last_batch_key ≡ some keys
        → p ≡ pull_keys reader decoding codec keys (start peer db)
        → pull_peer reader decoding codec peer now db ≡ (
          save_cursor p.db (next_cursor reader decoding codec peer now m (cursor db peer) p),
          p.applied,
          p.failed,
        )
        → PeerOutcome peer now db

  peer-cases : (peer : Bytes) (now : ℤ) (db : Db) → PeerOutcome peer now db
  unfolding pull_peer
  peer-cases peer now db = elim (Option-cases (load_manifest reader decoding codec peer)) [
    | inl bad ↦ unmoved 0 true (rw (bad, pull_peer) refl)
    | inr (m, there) ↦
        let c = cursor db peer in
        elim (Bool-cases
          (is_empty m.latest_batch || not (bytes_lt c.last_batch_key m.latest_batch))) [
            | inl idle ↦ unmoved 0 false (rw (there, idle, pull_peer) refl)
            | inr more ↦ elim (Option-cases (reader.list (batch_prefix peer) c.last_batch_key)) [
              | inl bad ↦ unmoved 0 true (rw (there, more, bad, pull_peer) refl)
              | inr (keys, listed) ↦
                  worked m keys (pull_keys reader decoding codec keys (start peer db)) listed refl
                    (rw (there, more, listed, pull_peer) refl)
            ]
          ]
  ]

  -- Every listed batch that a peer's cursor passes during a pull could be read and decrypted, and each
  -- of its events is in the log, also where the pull ends in an error. The backend lists the keys in
  -- ascending order.
  pub pull_peer_loses_nothing :
      (peer : Bytes) (now : ℤ) (db : Db) (keys : List Bytes) (key : Bytes)
      → reader.list (batch_prefix peer) (cursor db peer).last_batch_key ≡ some keys
      → IsSorted bytes_lt keys
      → In key keys
      → bytes_lt (cursor db peer).last_batch_key key ≡ true
      → bytes_lt (cursor (pull_peer reader decoding codec peer now db).0 peer).last_batch_key key
        ≡ false
      → Consumed reader decoding codec key (pull_peer reader decoding codec peer now db).0
  pull_peer_loses_nothing peer now db keys key listed s h new passed =
      elim (peer-cases peer now db) [
        | unmoved n bad a ↦
            let passed' : bytes_lt (cursor db peer).last_batch_key key ≡ false = rw a at passed in
            absurd (true≢false (sym new ∙ passed'))
        | worked m keys' p listed' is a ↦
            let c = next_cursor reader decoding codec peer now m (cursor db peer) p in
            let same : keys ≡ keys' = cc (sym listed ∙ listed') in
            let at_cursor = cursor-save_cursor p.db c peer (unfold next_cursor in refl) in
            let is' : p ≡ pull_keys reader decoding codec keys (start peer db) =
              rw (sym same) at is in
            let at_end : bytes_lt p.key key ≡ false =
              unfold next_cursor in rw (a, at_cursor) at passed in
            let done =
              pull_keys-Consumed reader decoding codec keys (start peer db) key s h new
                (rw is' at at_end) in
            let kept : Grows p.db (save_cursor p.db c) = unfold save_cursor in (λ id h. h) in
            rw a (
              Consumed-Grows reader decoding codec key p.db (save_cursor p.db c) kept (rw is' done))
      ]
