-- ===== src/Sync/Push.antt =====
-- internal/sync/engine.go: uploading what is pending, with the state of the storage passed along.
use shcr.Base.{
  ℕ, ◌+◌, Bool, true, false, Option, none, some, List, [], ◌∷◌, ◌++◌, map, if◌then◌else◌, ltb,
  length, ◌>>=◌,
}
use shcr.Base.Bytes.{Bytes, codes}
use shcr.Base.Int.{pos}
use shcr.Event.{Event, Codec}
use shcr.Store.Types.{Db}
use shcr.Store.Log.{unsynced_events, mark_synced}
use shcr.Sync.Keys.{TimeLayout, manifest_key, new_batch_key}
use shcr.Sync.Pull.{Manifest, Reader, Decoding, load_manifest}

-- `maxEventsPerBatch`
abbrev pub max_events_per_batch : ℕ
max_events_per_batch = 500

-- A backend with its state: what it answers, and `Put`, which says whether there was no error.
pub record Storage (S : Type 0) : Type 0 where
  pub reader : S → Reader
  pub put : S → Bytes → Bytes → S × Bool

-- `crypto.Encrypt` with the engine's key and `json.Marshal`, with `none` for an error. An event is
-- written without the newline that the encoder adds.
pub record Encoding : Type 0 where
  pub encrypt : Bytes → Option Bytes
  pub write_event : Event → Option Bytes
  pub write_manifest : Manifest → Option Bytes

-- The engine's fields that a push reads.
pub record Engine : Type 0 where
  pub device_id : Bytes
  pub hostname : Bytes
  pub share_hostname : Bool

-- What a batch takes from the clock and from the random source.
pub record Draw : Type 0 where
  pub now : ℕ
  pub updated_at : Bytes
  pub suffix : Option Bytes

-- How the loop of `PushOnce` ends.
pub data Ending : Type 0 where
  drained push_error cancelled unfinished : Ending

unfoldable pub encode_events : Encoding → List Event → Option Bytes
encode_events encoding [] = some []
encode_events encoding (e ∷ es) = do
  line ← encoding.write_event e
  rest ← encode_events encoding es
  some (line ++ (codes "\n" ++ rest))

abbrev pub ids_of : List Event → List Bytes
ids_of = map (λ e. e.event_id)

-- What `PushOnce` does behind a batch; `more` is the rest of the loop.
unfoldable pub behind_batch :
    {S : Type 0}
    → Bool
    → ℕ
    → (S → Db → ℕ → S × Db × ℕ × Ending)
    → S × Db × Option ℕ
    → S × Db × ℕ × Ending
behind_batch is_cancelled total more (objects, db, none) = (objects, db, total, push_error)
behind_batch is_cancelled total more (objects, db, some n) =
    if ltb n max_events_per_batch
    then (objects, db, total + n, drained)
    else if is_cancelled
    then (objects, db, total + n, cancelled)
    else more objects db (total + n)

module _ {S : Type 0} (storage : Storage S) (encoding : Encoding) (decoding : Decoding)
    (codec : Codec) (layout : TimeLayout) (engine : Engine) where
  -- The manifest that names the new batch.
  unfoldable pub next_manifest : Bytes → Draw → Manifest
  next_manifest key draw = record {
    latest_batch = key;
    updated_at = draw.updated_at;
    hostname_hint = if engine.share_hostname then engine.hostname else [];
  }

  -- The two uploads, the batch before the manifest that names it.
  unfoldable pub publish : S → Bytes → Bytes → Draw → S × Bool
  unfolding next_manifest
  publish objects key sealed draw =
      let (objects1, batch_up) = storage.put objects key sealed in
      elim batch_up [
        | false ↦ (objects1, false)
        | true ↦ elim (encoding.write_manifest (next_manifest key draw)) [
          | none ↦ (objects1, false)
          | some text ↦ storage.put objects1 (manifest_key engine.device_id) text
        ]
      ]

  -- The batch and its key.
  unfoldable pub seal : S → List Event → Draw → Option (Bytes × Bytes)
  unfolding encode_events load_manifest new_batch_key
  seal objects events draw = do
    plain ← encode_events encoding events
    sealed ← encoding.encrypt plain
    m ← load_manifest (storage.reader objects) decoding codec engine.device_id
    suffix ← draw.suffix
    some (new_batch_key layout engine.device_id suffix draw.now m.latest_batch, sealed)

  unfoldable pub push_events : S → Db → List Event → Draw → S × Db × Option ℕ
  unfolding seal publish
  push_events objects db [] draw = (objects, db, some 0)
  push_events objects db (e ∷ es) draw = elim (seal objects (e ∷ es) draw) [
    | none ↦ (objects, db, none)
    | some (key, sealed) ↦
        let (objects', up) = publish objects key sealed draw in
        elim up [
          | false ↦ (objects', db, none)
          | true ↦ (objects', mark_synced db (ids_of (e ∷ es)), some (length (e ∷ es)))
        ]
  ]

  unfoldable pub push_batch : S → Db → Draw → S × Db × Option ℕ
  unfolding push_events unsynced_events
  push_batch objects db draw =
      push_events objects db (unsynced_events db engine.device_id (pos max_events_per_batch)) draw

  -- The loop of `PushOnce`, over what each round draws and whether its context was cancelled behind
  -- it. `unfinished` stands for a loop that goes on behind the last round.
  unfoldable pub push_once : List (Draw × Bool) → S → Db → ℕ → S × Db × ℕ × Ending
  unfolding push_batch behind_batch
  push_once [] objects db total = (objects, db, total, unfinished)
  push_once ((draw, is_cancelled) ∷ rounds) objects db total =
      behind_batch is_cancelled total (λ objects' db' total'. push_once rounds objects' db' total')
        (push_batch objects db draw)
