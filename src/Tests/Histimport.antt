-- ===== src/Tests/Histimport.antt =====
-- A file with a command that stands in it twice in one millisecond, in the toy payload format.
use shcr.Base.{All, length, ◌+◌, true, false, some, [], ◌∷◌, ◌≡◌, refl}
use shcr.Base.Bytes.{Bytes, codes, bytes_eq, bytes_lt, has_prefix}
use shcr.Base.Int.{pos}
use shcr.Base.Decimal.{format_int, format_nat, digits}
use shcr.Base.Sort.{sort, insert}
use shcr.Base.Table.{lookup, upsert}
use shcr.Redact.{
  secret_span, label_span, value_group, replace_loop, replace_group, skip_rule, redact_loop,
  outcome, apply,
}
use shcr.Histfile.Entries.{Entry}
use shcr.Histfile.Parse.{Kind}
use shcr.Store.Types.{empty_db}
use shcr.Store.Recompute.{events_of, recompute, gather, derive}
use shcr.Store.Log.{append_event, has_event}
use shcr.Store.Materialized.{IsView-empty}
use shcr.Store.Queries.{command_by_id}
use shcr.Histimport.{
  Options, Source, import_file, import_entries, import_verdict, import_entry, appended, tally_entry,
  tally_redacted, import_event, import_id, file_base, strip_slashes, last_element, detail,
}
use shcr.Histimport.Rounds.{as_existing, Readable}
use shcr.Histimport.Again.{TakenIn, import_file_again}
use shcr.Tests.Redact.{two_letters}
use shcr.Tests.Store.{toy}

abbrev entry : Bytes → Entry
entry text = record {
  command = text;
  start_time = pos 1000;
  approximate = false;
  duration_ms = pos 0;
}

abbrev file : Source
file = record {
  path = codes "/home/me/.bash_history/";
  kind = Kind.bash;
  entries = entry (codes "ls") ∷ entry (codes "t=ab") ∷ entry (codes "ls") ∷ [];
}

abbrev real : Options
real = record {
  device_id = codes "laptop";
  hostname = codes "box";
  rules = two_letters ∷ [];
  dry_run = false;
}

abbrev dry : Options
dry = record real { dry_run = true }

base_of_path : file_base file.path ≡ codes ".bash_history"
unfolding file_base strip_slashes last_element
base_of_path = refl

-- The digest keeps the text here.
abbrev same : Bytes → Bytes
same text = text

first_import :
    (import_file same toy real (some file) empty_db).1
    ≡ record { new = 2; existing = 1; redacted = 1; skipped = 0 }
unfolding import_file import_entries import_verdict import_entry appended tally_entry tally_redacted
    import_event import_id format_int format_nat digits apply skip_rule redact_loop outcome
    replace_group replace_loop secret_span label_span value_group has_prefix append_event recompute
    gather derive sort insert lookup upsert bytes_eq bytes_lt events_of has_event file_base
    strip_slashes last_element
first_import = refl

-- A dry run counts the repeated entry as new both times.
dry_import :
    (import_file same toy dry (some file) empty_db).1
    ≡ record { new = 3; existing = 0; redacted = 1; skipped = 0 }
unfolding import_file import_entries import_verdict import_entry appended tally_entry tally_redacted
    import_event import_id format_int format_nat digits apply skip_rule redact_loop outcome
    replace_group replace_loop secret_span label_span value_group has_prefix lookup command_by_id
dry_import = refl

toy-Readable : Readable toy
toy-Readable p h = cc h

import_file_again_example :
    ((import_file same toy real (some file) empty_db).2 ≡ false)
    × All
        (TakenIn same toy real file (import_file same toy real (some file) empty_db).0)
        file.entries
    × ((import_file same toy real (some file) empty_db).1.new
          + (import_file same toy real (some file) empty_db).1.existing
          + (import_file same toy real (some file) empty_db).1.skipped
        ≡ length file.entries)
    × (import_file same toy real (some file) (import_file same toy real (some file) empty_db).0 ≡ (
      (import_file same toy real (some file) empty_db).0,
      as_existing (import_file same toy real (some file) empty_db).1,
      false,
    ))
import_file_again_example =
    import_file_again same toy real file empty_db refl toy-Readable (IsView-empty toy)

summary_line :
    detail (record { new = 12; existing = 3; redacted = 0; skipped = 1 })
    ≡ codes "12 new, 3 already present, 1 skipped entirely"
unfolding detail format_nat digits
summary_line = refl
