-- ===== src/Sync/Cycle.antt =====
-- internal/sync/engine.go and loop.go: a whole cycle with the key it waits for, and the channel of
-- triggers. The lock that keeps two cycles apart is not modelled, for cycles come one by one here.
pub mod Queue
pub mod Empties
use shcr.Base.{
  ℕ, ◌+◌, Bool, true, false, not, ◌&&◌, ◌||◌, Option, none, some, List, [], ◌∷◌, if◌then◌else◌,
}
use shcr.Base.Int.{ℤ}
use shcr.Event.{Codec}
use shcr.Store.Types.{Db}
use shcr.Sync.Keys.{TimeLayout}
use shcr.Sync.Loop.{Trigger}
use shcr.Sync.Pull.{Decoding, pull_once}
use shcr.Sync.Push.{
  Storage, Encoding, Engine, Draw, Ending, drained, push_error, cancelled, unfinished, push_once,
}

-- `Trigger`: the channel holds one, and what finds it full is dropped.
unfoldable pub offer_trigger : Trigger → Option Trigger → Option Trigger
offer_trigger t none = some t
offer_trigger t (some earlier) = some earlier

-- The fields of the engine that `ensureKey` writes.
pub record KeyState (K : Type 0) : Type 0 where
  pub key : K
  pub ready : Bool
  pub logged : Bool

-- What `ensureKey` says.
pub data KeyNote : Type 0 where
  waiting live : KeyNote

-- What becomes of an answer of `KeyFunc`, with `none` for an error.
unfoldable pub take_key : {K : Type 0} → Option K → KeyState K → KeyState K × List KeyNote × Bool
take_key none st = (record st { logged = true }, if st.logged then [] else waiting ∷ [], false)
take_key (some key) st =
    (record st { key = key; ready = true }, if st.logged then live ∷ [] else [], true)

-- `ensureKey`, over `KeyFunc`, where there is one, and its answer; the last value is whether there
-- was no error.
unfoldable pub ensure_key :
    {K : Type 0} → Option (Option K) → KeyState K → KeyState K × List KeyNote × Bool
unfolding take_key
ensure_key none st = (st, [], true)
ensure_key (some answer) st = if st.ready then (st, [], true) else take_key answer st

-- What a cycle comes to.
pub record Cycle (S : Type 0) : Type 0 where
  pub objects : S
  pub db : Db
  pub pushed : ℕ
  pub pulled : ℕ
  pub failed : Bool

abbrev pub is_drained : Ending → Bool
is_drained drained = true
is_drained push_error = false
is_drained cancelled = false
is_drained unfinished = false

-- The encryption and the decryption with a key, and the time that the pull writes to cursors.
module _ {S K : Type 0} (storage : Storage S) (encodings : K → Encoding) (decodings : K → Decoding)
    (codec : Codec) (layout : TimeLayout) (engine : Engine) (now : ℤ) where
  -- The pull, behind a push that has ended.
  unfoldable pub behind_push : K → S × Db × ℕ × Ending → Cycle S
  unfolding pull_once
  behind_push key (objects, db, pushed, ending) =
      let (db', pulled, failed) =
        pull_once (storage.reader objects) (decodings key) codec engine.device_id now db in
      if is_drained ending
      then record { objects = objects; db = db'; pushed = pushed; pulled = pulled; failed = failed }
      else record { objects = objects; db = db; pushed = pushed; pulled = 0; failed = true }

  -- `SyncOnce`, over the rounds of its push, which fails if they do not suffice.
  unfoldable pub sync_once :
      Option (Option K) → List (Draw × Bool) → KeyState K → S → Db → KeyState K × Cycle S
  unfolding ensure_key push_once behind_push
  sync_once key_func rounds st objects db =
      let (st', notes, ready) = ensure_key key_func st in
      let cycle = behind_push st'.key (
        push_once storage (encodings st'.key) (decodings st'.key) codec layout engine rounds objects
          db 0) in
      if ready
      then (st', cycle)
      else (st', record { objects = objects; db = db; pushed = 0; pulled = 0; failed = true })
