-- ===== src/Export.antt =====
-- internal/export/export.go: the formats in which history is written. The encoders of JSON and CSV
-- and the format of a time are parameters; the writer does not fail.
use shcr.Base.{ℕ, Bool, ◌||◌, Option, none, some, List, [], ◌∷◌, ◌++◌, if◌then◌else◌, length, map}
use shcr.Base.Bytes.{Bytes, codes, is_empty, bytes_eq}
use shcr.Base.Int.{ℤ}
use shcr.Base.Decimal.{format_int}
use shcr.Event.{Event}
use shcr.Store.Types.{Command, Db}
use shcr.Store.Queries.{Filter, status_name, each_command, each_event}

pub data Format : Type 0 where
  jsonl json csv : Format

-- `ParseFormat`, with `none` for an error; `normal` is `strings.ToLower(strings.TrimSpace(s))`.
unfoldable pub parse_format : (Bytes → Bytes) → Bytes → Option Format
parse_format normal s =
    let name = normal s in
    if is_empty name || bytes_eq name (codes "jsonl")
    then some Format.jsonl
    else if bytes_eq name (codes "json")
    then some Format.json
    else if bytes_eq name (codes "csv")
    then some Format.csv
    else none

-- `Encode` of an event and of a command, with the newline behind it, a line of CSV, and
-- `time.UnixMilli(ms).Format(time.RFC3339)`.
pub record Encoders : Type 0 where
  pub event_line : Event → Bytes
  pub command_line : Command → Bytes
  pub csv_line : List Bytes → Bytes
  pub rfc3339 : ℤ → Bytes

pub record ExportOptions : Type 0 where
  pub format : Format
  pub events : Bool
  pub filter : Filter

abbrev pub csv_header : List Bytes
csv_header =
    codes "id"
    ∷ codes "started"
    ∷ codes "command"
    ∷ codes "host"
    ∷ codes "cwd"
    ∷ codes "branch"
    ∷ codes "shell"
    ∷ codes "status"
    ∷ codes "exit_code"
    ∷ codes "duration_ms"
    ∷ codes "session"
    ∷ codes "imported"
    ∷ []

abbrev deref_string : Option Bytes → Bytes
deref_string none = []
deref_string (some s) = s

unfoldable pub deref_int : Option ℤ → Bytes
unfolding format_int
deref_int none = []
deref_int (some n) = format_int n

unfoldable pub csv_row : Encoders → Command → List Bytes
unfolding deref_int
csv_row encoders c =
    c.id
    ∷ encoders.rfc3339 c.start_time
    ∷ c.command
    ∷ c.hostname
    ∷ c.cwd
    ∷ deref_string c.git_branch
    ∷ c.shell
    ∷ status_name c.status
    ∷ deref_int c.exit_code
    ∷ deref_int c.duration_ms
    ∷ c.session_id
    ∷ (if c.imported then codes "true" else codes "false")
    ∷ []

unfoldable pub concat_lines : List Bytes → Bytes
concat_lines [] = []
concat_lines (line ∷ lines) = line ++ concat_lines lines

-- The elements of an array: a comma in front of every line but the first.
unfoldable pub array_lines : List Bytes → Bytes
unfolding concat_lines
array_lines [] = []
array_lines (line ∷ lines) = line ++ concat_lines (map (λ l. b',' ∷ l) lines)

module _ (encoders : Encoders) (matches : Bytes → Bytes → Bool) where
  unfoldable pub lines_of : Db → ExportOptions → List Bytes
  unfolding each_command each_event
  lines_of db o =
      if o.events
      then map encoders.event_line (each_event db)
      else map encoders.command_line (each_command matches db o.filter)

  -- The table of commands; the event log has no such form.
  unfoldable pub write_csv : Db → ExportOptions → Option (Bytes × ℕ)
  unfolding each_command csv_row concat_lines
  write_csv db o =
      let rows = each_command matches db o.filter in
      if o.events
      then none
      else some (
        encoders.csv_line csv_header
            ++ concat_lines (map (λ c. encoders.csv_line (csv_row encoders c)) rows),
        length rows,
      )

  unfoldable pub write_format : Format → Db → ExportOptions → Option (Bytes × ℕ)
  unfolding lines_of write_csv array_lines concat_lines
  write_format Format.csv db o = write_csv db o
  write_format Format.json db o =
      let lines = lines_of db o in
      some (codes "[\n" ++ array_lines lines ++ codes "]\n", length lines)
  write_format Format.jsonl db o =
      let lines = lines_of db o in some (concat_lines lines, length lines)

  -- `Write`: what is written and how many records, or `none` for an error.
  unfoldable pub write : Db → ExportOptions → Option (Bytes × ℕ)
  unfolding write_format
  write db o = write_format o.format db o
