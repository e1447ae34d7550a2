-- ===== src/Tests/Cycle.antt =====
-- A cycle over a directory, with a key that is there at the second try.
use shcr.Base.{Bool, true, false, none, some, [], ◌∷◌, ◌≡◌, refl, arith}
use shcr.Base.Bytes.{codes, bytes_eq, bytes_lt, has_prefix}
use shcr.Base.Sort.{sort, insert}
use shcr.Base.Table.{lookup, upsert}
use shcr.Base.Int.{pos}
use shcr.Store.Stats.{distinct, has_text}
use shcr.Store.Recompute.{recompute, gather, derive, events_of}
use shcr.Store.Log.{pending, unsynced_events, append_event, mark_synced, mark_rows, mark_row}
use shcr.Store.Candidates.{trim_slash}
use shcr.Sync.Loop.{session_end, picker}
use shcr.Sync.Keys.{manifest_key, batch_prefix, new_batch_key}
use shcr.Sync.Push.{
  push_once, push_batch, push_events, behind_batch, seal, publish, encode_events, next_manifest,
}
use shcr.Sync.Pull.{load_manifest, pull_once, peers, other_devices, pull_peers}
use shcr.Sync.Files.{
  file_storage, file_get, file_put, file_list, file_children, object_path, segments, all_clean,
  children_in, child_of, behind,
}
use shcr.Sync.Cycle.{
  KeyState, waiting, live, ensure_key, take_key, offer_trigger, sync_once, behind_push,
}
use shcr.Sync.Cycle.Empties.{sync_once_empties}
use shcr.Tests.Store.{toy}
use shcr.Tests.Sync.{
  waiting_db, draw, laptop, letters, plain_encoding, plain_decoding, encode_manifest, decrypt_plain,
}

abbrev locked : KeyState Bool
locked = record { key = false; ready = false; logged = false }

-- The wait for the key is said once, and its end too.
key_said :
    ((ensure_key (some none) locked).1 ≡ waiting ∷ [])
    × ((ensure_key (some none) (ensure_key (some none) locked).0).1 ≡ [])
    × ((ensure_key (some (some true)) (ensure_key (some none) locked).0).1 ≡ live ∷ [])
    × ((ensure_key none locked).1 ≡ [])
unfolding ensure_key take_key
key_said = (refl, refl, refl, refl)

one_queued : offer_trigger picker (some session_end) ≡ some session_end
unfolding offer_trigger
one_queued = refl

sync_once_empties_example :
    pending
      (codes "laptop")
      (sync_once file_storage
        (λ (key : Bool). plain_encoding)
        (λ (key : Bool). plain_decoding)
        toy
        letters
        laptop
        (pos 7)
        (some (some true))
        ((draw, false) ∷ (draw, false) ∷ [])
        locked
        []
        waiting_db).1.db.events
    ≡ []
unfolding sync_once ensure_key take_key behind_push push_once push_batch push_events behind_batch
    seal publish encode_events next_manifest load_manifest pull_once peers other_devices pull_peers
    manifest_key batch_prefix new_batch_key file_storage file_get file_put file_list file_children
    object_path segments all_clean children_in child_of behind trim_slash distinct has_text pending
    unsynced_events append_event mark_synced mark_rows mark_row recompute gather derive events_of
    sort insert lookup upsert bytes_eq bytes_lt has_prefix encode_manifest decrypt_plain
sync_once_empties_example =
    sync_once_empties file_storage (λ (key : Bool). plain_encoding) (λ (key : Bool). plain_decoding)
      toy letters laptop (pos 7) (some (some true)) ((draw, false) ∷ (draw, false) ∷ []) locked []
      waiting_db (omega arith) refl
