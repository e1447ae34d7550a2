-- ===== src/Store/Cursors.antt =====
-- internal/store/store.go: how far each peer's stream has been read.
use shcr.Base.{none, some, List, [], map, Bool}
use shcr.Base.Bytes.{Bytes, bytes_lt}
use shcr.Base.Int.{pos}
use shcr.Base.Sort.{sort}
use shcr.Base.Table.{lookup, upsert}
use shcr.Store.Types.{Cursor, Db}

cursor_before : Cursor → Cursor → Bool
cursor_before a b = bytes_lt a.peer_device_id b.peer_device_id

unfoldable pub cursors : Db → List Cursor
unfolding cursor_before
cursors db = sort cursor_before (map (λ entry. entry.1) db.sync_cursors)

unfoldable pub cursor : Db → Bytes → Cursor
cursor db peer = elim (lookup peer db.sync_cursors) [
  | some c ↦ c
  | none ↦ record {
    peer_device_id = peer;
    last_batch_key = [];
    last_synced_at = pos 0;
    hostname_hint = [];
  }
]

unfoldable pub save_cursor : Db → Cursor → Db
save_cursor db c = record db { sync_cursors = upsert c.peer_device_id c db.sync_cursors }
