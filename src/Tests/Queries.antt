-- ===== src/Tests/Queries.antt =====
-- The list, the export and the dashboard over a store with one command.
use shcr.Base.{◌+◌, ◌≤◌, min, [], take, drop, ◌≡◌, refl, arith}
use shcr.Base.Bytes.{codes, bytes_eq, bytes_lt, has_prefix}
use shcr.Base.Int.{pos, wrap64, ◌-ℤ◌}
use shcr.Base.Sort.{sort, insert}
use shcr.Base.Table.{lookup, upsert}
use shcr.Store.Recompute.{events_of, recompute, gather, derive}
use shcr.Store.Log.{append_event, has_event}
use shcr.Store.Delivery.{deliver}
use shcr.Store.Stats.{has_text}
use shcr.Store.Queries.{
  Filter, no_filter, fts_query, fts_tokens, fts_parts, quoted, double_quotes, is_fts_word_char,
  query_commands, each_command,
}
use shcr.Store.Dashboard.{events_since, max_event_row_id, truncate_hour}
use shcr.Store.Keyed.{Keyed}
use shcr.Store.Export.{reverse, query_commands-each_command}
use shcr.Store.Follow.{ids_of_rows, Once, events_since_exact}
use shcr.Tests.Store.{log_db}

two_words : fts_query (codes "go test!") ≡ codes "\"go\" \"test\"*"
unfolding fts_query fts_tokens fts_parts quoted double_quotes is_fts_word_char
two_words = refl

no_word : fts_query (codes "???") ≡ []
unfolding fts_query fts_tokens fts_parts quoted double_quotes is_fts_word_char
no_word = refl

before_1970 : truncate_hour (pos 0 -ℤ pos 1) ≡ pos 0 -ℤ pos 3600000
unfolding truncate_hour ◌-ℤ◌
before_1970 = refl

keyed : Keyed log_db.commands
unfolding deliver append_event recompute gather derive sort insert lookup upsert bytes_eq bytes_lt
    events_of wrap64 ◌-ℤ◌ has_event
keyed = (refl, tt, tt)

abbrev failed_only : Filter
failed_only = record no_filter { status = codes "failed"; limit = pos 5 }

query_commands-each_command_example :
    query_commands has_prefix log_db failed_only
    ≡ take 5 (drop 0 (reverse (each_command has_prefix log_db failed_only)))
query_commands-each_command_example =
    query_commands-each_command has_prefix log_db failed_only keyed

inside : 1 ≤ max_event_row_id log_db
unfolding deliver append_event recompute gather derive sort insert lookup upsert bytes_eq bytes_lt
    events_of wrap64 ◌-ℤ◌ has_event max_event_row_id
inside = omega arith

events_since_exact_example :
    (has_text (codes "c") (events_since log_db 1).0
      ≡ has_text (codes "c") (ids_of_rows (take 500 (drop 1 log_db.events))))
    × Once (events_since log_db 1).0
    × ((events_since log_db 1).1 ≡ min (1 + 500) (max_event_row_id log_db))
events_since_exact_example = events_since_exact log_db 1 (codes "c") inside
