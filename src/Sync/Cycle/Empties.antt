-- ===== src/Sync/Cycle/Empties.antt =====
-- A whole cycle of the engine and the events that wait for upload.
use shcr.Base.{ℕ, ◌<◌, Bool, false, Option, List, [], length, ◌≡◌, ◌∙◌, inl, inr, Bool-cases}
use shcr.Base.Int.{ℤ}
use shcr.Event.{Codec}
use shcr.Store.Types.{Db}
use shcr.Store.Log.{pending}
use shcr.Sync.Keys.{TimeLayout}
use shcr.Sync.Pull.{Decoding}
use shcr.Sync.Push.{
  Storage, Encoding, Engine, Draw, Ending, drained, push_error, cancelled, unfinished, push_once,
}
use shcr.Sync.Drain.{Ended, push_once_drains}
use shcr.Sync.Consumed.{true≢false}
use shcr.Sync.Cycle.{KeyState, Cycle, behind_push, ensure_key, sync_once}
use shcr.Sync.Cycle.Queue.{pull_once-Keeps}

module _ {S K : Type 0} (storage : Storage S) (encodings : K → Encoding) (decodings : K → Decoding)
    (codec : Codec) (layout : TimeLayout) (engine : Engine) (now : ℤ) where
  abbrev pulled_behind : K → S × Db × ℕ × Ending → Cycle S
  pulled_behind key result =
      behind_push storage encodings decodings codec layout engine now key result

  abbrev EndedWith : K → S × Db × ℕ × Ending → Type 0
  EndedWith key result = Ended storage (encodings key) (decodings key) codec layout engine result

  drained_empty :
      (key : K) (objects : S) (db : Db) (pushed : ℕ)
      → EndedWith key (objects, db, pushed, drained)
      → pending engine.device_id db.events ≡ []
  drained_empty key objects db pushed (inl q) = absurd (cc q)
  drained_empty key objects db pushed (inr (inl q)) = absurd (cc q)
  drained_empty key objects db pushed (inr (inr q)) = q.1

  behind_push-empty :
      (key : K) (result : S × Db × ℕ × Ending)
      → EndedWith key result
      → (pulled_behind key result).failed ≡ false
      → pending engine.device_id (pulled_behind key result).db.events ≡ []
  unfolding behind_push
  behind_push-empty key (objects, db, pushed, drained) ended fine =
      pull_once-Keeps engine.device_id (storage.reader objects) (decodings key) codec
        engine.device_id now db
      ∙ drained_empty key objects db pushed ended
  behind_push-empty key (objects, db, pushed, push_error) ended fine = absurd (true≢false fine)
  behind_push-empty key (objects, db, pushed, cancelled) ended fine = absurd (true≢false fine)
  behind_push-empty key (objects, db, pushed, unfinished) ended fine = absurd (true≢false fine)

  -- A cycle that returns no error leaves no event of this device waiting for upload: the key was
  -- there, the push has drained the queue, and the pull behind it has put nothing in, whatever the
  -- peers have published. One round more than there are events is enough for the push.
  pub sync_once_empties :
      (key_func : Option (Option K)) (rounds : List (Draw × Bool)) (st : KeyState K) (objects : S)
      (db : Db)
      → length (pending engine.device_id db.events) < length rounds
      → (sync_once storage encodings decodings codec layout engine now key_func rounds st objects
          db).1.failed
        ≡ false
      → pending engine.device_id
          (sync_once storage encodings decodings codec layout engine now key_func rounds st objects
            db).1.db.events
        ≡ []
  unfolding sync_once
  sync_once_empties key_func rounds st objects db enough fine =
      let key = (ensure_key key_func st).0.key in
      let result =
        push_once storage (encodings key) (decodings key) codec layout engine rounds objects db 0 in
      let ended =
        push_once_drains storage (encodings key) (decodings key) codec layout engine rounds objects
          db 0 enough in
      elim (Bool-cases (ensure_key key_func st).2) [
        | inr waits ↦ absurd (true≢false (rw waits at fine))
        | inl there ↦ rw there (behind_push-empty key result ended (rw there at fine))
      ]
