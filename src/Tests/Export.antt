-- ===== src/Tests/Export.antt =====
-- The formats over a store with one command, with its text for a line.
use shcr.Base.{true, none, some, [], ◌∷◌, ◌++◌, ◌≡◌, refl}
use shcr.Base.Bytes.{codes, bytes_eq, bytes_lt, has_prefix}
use shcr.Base.Int.{wrap64, ◌-ℤ◌}
use shcr.Base.Sort.{sort, insert}
use shcr.Base.Table.{lookup, upsert}
use shcr.Store.Recompute.{events_of, recompute, gather, derive}
use shcr.Store.Log.{append_event, has_event}
use shcr.Store.Delivery.{deliver}
use shcr.Store.Queries.{no_filter, each_event}
use shcr.Export.{
  Format, Encoders, ExportOptions, parse_format, write, write_format, write_csv, lines_of,
  array_lines, concat_lines,
}
use shcr.Tests.Store.{log_db}

abbrev plain : Encoders
plain = record {
  event_line = λ e. e.event_id ++ 10 ∷ [];
  command_line = λ c. c.command ++ 10 ∷ [];
  csv_line = λ row. concat_lines row ++ 10 ∷ [];
  rfc3339 = λ t. codes "1970";
}

abbrev events_as : Format → ExportOptions
events_as f = record { format = f; events = true; filter = no_filter }

as_array :
    write plain has_prefix log_db (events_as Format.json) ≡ some (codes "[\ne1\n,e2\n,e3\n]\n", 3)
unfolding deliver append_event recompute gather derive sort insert lookup upsert bytes_eq bytes_lt
    events_of wrap64 ◌-ℤ◌ has_event write write_format lines_of array_lines concat_lines each_event
as_array = refl

no_flat_events : write plain has_prefix log_db (events_as Format.csv) ≡ none
unfolding write write_format write_csv
no_flat_events = refl

names :
    (parse_format (λ s. s) [] ≡ some Format.jsonl)
    × (parse_format (λ s. s) (codes "csv") ≡ some Format.csv)
    × (parse_format (λ s. s) (codes "xml") ≡ none)
unfolding parse_format bytes_eq
names = (refl, refl, refl)
