-- ===== src/Sync/Published.antt =====
-- `pushBatch`: what leaves the queue is published, and a peer that reads it gets the same events.
use shcr.Base.{
  ℕ, true, none, some, List, [], ◌∷◌, ◌++◌, append_assoc, get_or, ◌≡◌, ◌≢◌, refl, sym, ap, ◌∙◌,
  length, ◌⊎◌, inl, inr, arith, Bool-cases, Option-cases,
}
use shcr.Base.Bytes.{Bytes, codes}
use shcr.Base.Int.{pos}
use shcr.Event.{Event, Codec}
use shcr.Store.Types.{Db}
use shcr.Store.Log.{pending, unsynced_events}
use shcr.Store.Outbox.{without_ids, mark_synced_exact}
use shcr.Sync.Keys.{TimeLayout, manifest_key, batch_prefix, key_time, new_batch_key}
use shcr.Sync.Pull.{Manifest, Reader, Fetched, Decoding, load_manifest, apply_batch}
use shcr.Sync.Push.{
  Storage, Encoding, Engine, Draw, ids_of, encode_events, next_manifest, publish, seal, push_batch,
  max_events_per_batch,
}
use shcr.Sync.Wire.{WireLaws, insert_all, apply_scanned-encode_events}
use shcr.Sync.Drain.{idle, stuck, sent, batch-cases}

-- What a backend promises of a `Put` that ends without an error.
pub record StorageLaws {S : Type 0} (storage : Storage S) : Type 0 where
  pub stored :
      (objects objects' : S) (key content : Bytes)
      → storage.put objects key content ≡ (objects', true)
      → (storage.reader objects').get key ≡ Fetched.found content
  pub others_kept :
      (objects objects' : S) (key content other : Bytes)
      → storage.put objects key content ≡ (objects', true)
      → other ≢ key
      → (storage.reader objects').get other ≡ (storage.reader objects).get other

append-cancel : (p a b : Bytes) → p ++ a ≡ p ++ b → a ≡ b
append-cancel [] a b e = e
append-cancel (c ∷ p) a b e = append-cancel p a b (cc e)

new_batch_key≢manifest_key :
    (layout : TimeLayout) (device suffix previous : Bytes) (now : ℕ)
    → new_batch_key layout device suffix now previous ≢ manifest_key device
unfolding new_batch_key batch_prefix manifest_key
new_batch_key≢manifest_key layout device suffix previous now e =
    let file =
      layout.format (key_time layout now previous)
      ++ (codes "_" ++ (suffix ++ codes ".jsonl.enc")) in
    let behind_devices : (device ++ codes "/batches/") ++ file ≡ device ++ codes "/manifest.json" =
      append-cancel (codes "devices/") ((device ++ codes "/batches/") ++ file)
        (device ++ codes "/manifest.json") e in
    let behind_device : codes "/batches/" ++ file ≡ codes "/manifest.json" =
      append-cancel device (codes "/batches/" ++ file) (codes "/manifest.json")
        (sym (append_assoc device (codes "/batches/") file) ∙ behind_devices) in
    let letters : b'b' ≡ b'm' = ap (λ s. get_or s 1 0) behind_device in omega (arith, letters)

module _ {S : Type 0} (storage : Storage S) (encoding : Encoding) (decoding : Decoding)
    (codec : Codec) (layout : TimeLayout) (engine : Engine) (laws : StorageLaws storage)
    (manifest_laws : (m : Manifest) (text : Bytes)
      → encoding.write_manifest m ≡ some text
      → decoding.read_manifest text ≡ some m) where
  abbrev reading : S → Reader
  reading objects = storage.reader objects

  publish-inv :
      (objects objects' : S) (key sealed : Bytes) (draw : Draw)
      → publish storage encoding decoding codec layout engine objects key sealed draw
        ≡ (objects', true)
      → (between : S) × (text : Bytes) × (storage.put objects key sealed ≡ (between, true))
        × (encoding.write_manifest
              (next_manifest storage encoding decoding codec layout engine key draw)
            ≡ some text)
        × (storage.put between (manifest_key engine.device_id) text ≡ (objects', true))
  unfolding publish
  publish-inv objects objects' key sealed draw up =
      elim (Bool-cases (storage.put objects key sealed).1) [
        | inr bad ↦ cc (rw (bad, publish) at up)
        | inl batch_up ↦
            elim (Option-cases (
              encoding.write_manifest
                (next_manifest storage encoding decoding codec layout engine key draw))) [
                  | inl bad ↦ cc (rw (batch_up, bad, publish) at up)
                  | inr (text, written) ↦ (
                    (storage.put objects key sealed).0,
                    text,
                    ap (λ u. ((storage.put objects key sealed).0, u)) batch_up,
                    written,
                    rw (batch_up, written, publish) at up,
                  )
                ]
      ]

  seal-inv :
      (objects : S) (es : List Event) (draw : Draw) (key sealed : Bytes)
      → seal storage encoding decoding codec layout engine objects es draw ≡ some (key, sealed)
      → (plain : Bytes) × (suffix : Bytes) × (m : Manifest) × (encode_events encoding es
          ≡ some plain)
        × (encoding.encrypt plain ≡ some sealed)
        × (key ≡ new_batch_key layout engine.device_id suffix draw.now m.latest_batch)
  unfolding seal
  seal-inv objects es draw key sealed made = elim (Option-cases (encode_events encoding es)) [
    | inl bad ↦ cc (rw (bad, seal) at made)
    | inr (plain, encoded) ↦ elim (Option-cases (encoding.encrypt plain)) [
      | inl bad ↦ cc (rw (encoded, bad, seal) at made)
      | inr (text, encrypted) ↦
          elim (Option-cases
            (load_manifest (storage.reader objects) decoding codec engine.device_id)) [
              | inl bad ↦ cc (rw (encoded, encrypted, bad, seal) at made)
              | inr (m, loaded) ↦ elim (Option-cases draw.suffix) [
                | inl bad ↦ cc (rw (encoded, encrypted, loaded, bad, seal) at made)
                | inr (suffix, drawn) ↦
                    let same : some (
                      new_batch_key layout engine.device_id suffix draw.now m.latest_batch,
                      text,
                    )
                        ≡ some (key, sealed) =
                      rw (encoded, encrypted, loaded, drawn, seal) at made in
                    (plain, suffix, m, encoded, encrypted ∙ cc same, cc same)
              ]
            ]
    ]
  ]

  -- What a sent batch leaves in the storage, for whoever reads it.
  abbrev pub Published : Db → S → List Event → Draw → Db → Type 0
  Published db objects' es draw peer_db =
      (key : Bytes) × (load_manifest (storage.reader objects') decoding codec engine.device_id
        ≡ some (next_manifest storage encoding decoding codec layout engine key draw))
      × (apply_batch (storage.reader objects') decoding codec key peer_db
          ≡ insert_all encoding codec es peer_db 0)

  sent-Published :
      (objects objects' : S) (db : Db) (es : List Event) (draw : Draw) (key sealed : Bytes)
      (peer_db : Db)
      → WireLaws encoding decoding es
      → seal storage encoding decoding codec layout engine objects es draw ≡ some (key, sealed)
      → publish storage encoding decoding codec layout engine objects key sealed draw
        ≡ (objects', true)
      → Published db objects' es draw peer_db
  unfolding load_manifest apply_batch
  sent-Published objects objects' db es draw key sealed peer_db wire made up =
      let (plain, suffix, m, encoded, encrypted, is) = seal-inv objects es draw key sealed made in
      let (between, text, put_batch, written, put_manifest) =
        publish-inv objects objects' key sealed draw up in
      let apart : key ≢ manifest_key engine.device_id =
        rw is (new_batch_key≢manifest_key layout engine.device_id suffix m.latest_batch draw.now) in
      let at_manifest =
        laws.stored between objects' (manifest_key engine.device_id) text put_manifest in
      let at_key : (storage.reader objects').get key ≡ Fetched.found sealed =
        laws.others_kept between objects' (manifest_key engine.device_id) text key put_manifest
          apart
        ∙ laws.stored objects between key sealed put_batch in
      (
        key,
        rw (at_manifest, load_manifest)
            (manifest_laws (next_manifest storage encoding decoding codec layout engine key draw)
              text written),
        rw (at_key, apply_batch)
            (rw (wire.opened plain sealed encrypted) (
              apply_scanned-encode_events (storage.reader objects') encoding decoding codec es plain
                peer_db 0 wire encoded)),
      )

  -- The three ways in which a batch ends: an error, nothing to send, or a batch sent.
  abbrev pub PushOutcome : S → Db → Draw → Db → Type 0
  PushOutcome objects db draw peer_db =
      let (objects', db', result) =
        push_batch storage encoding decoding codec layout engine objects db draw in
      let es = unsynced_events db engine.device_id (pos max_events_per_batch) in
      ((result ≡ none) × (db' ≡ db))
      ⊎ ((result ≡ some 0) × (pending engine.device_id db.events ≡ []))
      ⊎ ((result ≡ some (length es))
          × (pending engine.device_id db'.events
              ≡ without_ids (ids_of es) (pending engine.device_id db.events))
          × Published db objects' es draw peer_db)

  -- A batch that goes up without an error leaves in the queue what it did not send, and the storage
  -- then holds a batch that the manifest names and from which any peer inserts exactly the events
  -- sent, in their order, up to the first that its store refuses or whose line has eight megabytes or
  -- more, at which it stops with an error. Where a batch meets an error, no event leaves the queue.
  -- What was written can be read back, and the storage keeps what was put.
  pub push_batch_publishes :
      (objects : S) (db : Db) (draw : Draw) (peer_db : Db)
      → WireLaws encoding decoding (unsynced_events db engine.device_id (pos max_events_per_batch))
      → PushOutcome objects db draw peer_db
  push_batch_publishes objects db draw peer_db wire =
      elim (batch-cases storage encoding decoding codec layout engine objects db draw) [
        | stuck objects' a ↦ inl (ap (λ r. r.2) a, ap (λ r. r.1) a)
        | idle none_waits a ↦ inr (inl (ap (λ r. r.2) a, none_waits))
        | sent objects' e es key sealed there made up a ↦ inr (
            inr (
              rw (a, there)
                (
                  refl,
                  (mark_synced_exact db (ids_of (e ∷ es)) engine.device_id).0,
                  sent-Published objects objects' db (e ∷ es) draw key sealed peer_db
                      (rw there at wire) made up,
                )))
      ]
