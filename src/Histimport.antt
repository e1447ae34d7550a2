-- ===== src/Histimport.antt =====
-- internal/histimport/histimport.go: a parsed history file as events. The digest that names an entry
-- is a parameter: the first twelve bytes of a SHA-256 in hexadecimal.
pub mod Rounds
pub mod Again
use shcr.Base.{
  ℕ, ◌+◌, Bool, true, false, Option, none, some, List, [], ◌∷◌, ◌++◌, if◌then◌else◌, ltb, ◌==◌,
}
use shcr.Base.Bytes.{Bytes, codes, is_empty}
use shcr.Base.Int.{ℤ}
use shcr.Base.Decimal.{format_int, format_nat}
use shcr.Event.{Event, EventType, ImportPayload, Codec}
use shcr.Redact.{Action, Rule, apply}
use shcr.Histfile.Entries.{Entry}
use shcr.Histfile.Parse.{Kind}
use shcr.Store.Types.{Db}
use shcr.Store.Log.{Result, ok, bad_payload, append_local}
use shcr.Store.Queries.{command_by_id}

-- `Result`
pub record Tally : Type 0 where
  pub new : ℕ
  pub existing : ℕ
  pub redacted : ℕ
  pub skipped : ℕ

abbrev pub no_tally : Tally
no_tally = record { new = 0; existing = 0; redacted = 0; skipped = 0 }

-- `Options`, with the rules of the redactor.
pub record Options : Type 0 where
  pub device_id : Bytes
  pub hostname : Bytes
  pub rules : List Rule
  pub dry_run : Bool

-- `Source`
pub record Source : Type 0 where
  pub path : Bytes
  pub kind : Kind
  pub entries : List Entry

abbrev kind_name : Kind → Bytes
kind_name Kind.bash = codes "bash"
kind_name Kind.zsh = codes "zsh"
kind_name Kind.fish = codes "fish"

-- `filepath.Base`: the slashes at the end are dropped, and what stands in front of the last one
-- that is left.
unfoldable pub strip_slashes : Bytes → Bytes
strip_slashes [] = []
strip_slashes (c ∷ s) =
    let rest = strip_slashes s in
    if is_empty rest then (if c == b'/' then [] else c ∷ []) else c ∷ rest

unfoldable pub last_element : Bytes → Bytes → Bytes
last_element name [] = name
last_element name (c ∷ s) = last_element (if c == b'/' then [] else name ++ c ∷ []) s

unfoldable pub file_base : Bytes → Bytes
unfolding strip_slashes last_element
file_base path =
    let stripped = strip_slashes path in
    if is_empty path
    then b'.' ∷ []
    else if is_empty stripped
    then b'/' ∷ []
    else last_element [] stripped

module _ (digest : Bytes → Bytes) (codec : Codec) where
  -- The parts of the identity, joined by a zero byte.
  unfoldable pub import_id : Bytes → ℤ → Bytes → Bytes
  unfolding format_int
  import_id shell start text =
      codes "import-"
      ++ digest (codes "shcr-import-v1" ++ 0 ∷ shell ++ 0 ∷ format_int start ++ 0 ∷ text)

  unfoldable pub import_payload : Bytes → Bytes → Bytes → Bytes → Entry → ImportPayload
  unfolding file_base
  import_payload host shell source text e = record {
    command = text;
    hostname = host;
    shell = shell;
    start_time = e.start_time;
    approximate_time = e.approximate;
    duration_ms = e.duration_ms;
    source = file_base source;
  }

  -- `Event`
  unfoldable pub import_event : Bytes → Bytes → Bytes → Bytes → Bytes → Entry → Event
  unfolding import_id import_payload
  import_event device host shell source text e =
      let id = import_id shell e.start_time text in
      record {
        event_id = id;
        command_id = id;
        device_id = device;
        type = EventType.import;
        payload = codec.write_import (import_payload host shell source text e);
        created_at = e.start_time;
      }

  abbrev pub entry_event : Options → Source → Entry → Event
  entry_event o src e =
      import_event o.device_id o.hostname (kind_name src.kind) src.path (apply o.rules e.command).0
        e

-- The column that an entry goes to, once it is known whether it is there already.
unfoldable pub tally_entry : Bool → Tally → Tally
tally_entry true r = record r { new = r.new + 1 }
tally_entry false r = record r { existing = r.existing + 1 }

unfoldable pub tally_redacted : Action → Tally → Tally
tally_redacted Action.redact r = record r { redacted = r.redacted + 1 }
tally_redacted _ r = r

-- The entry stops the import, with what it leaves, or the import goes on.
pub data Step : Type 0 where
  stop go_on : Db → Tally → Step

abbrev is_none {ℓ} : {A : Type ℓ} → Option A → Bool
is_none none = true
is_none (some _) = false

module _ (digest : Bytes → Bytes) (codec : Codec) (o : Options) (src : Source) where
  -- What the answer of `AppendEvent` makes of the import.
  unfoldable pub appended : Db × Result Bool → Tally → Step
  unfolding tally_entry
  appended (db, bad_payload) r = Step.stop db r
  appended (db, ok inserted) r = Step.go_on db (tally_entry inserted r)

  -- The round of an entry that is not skipped.
  unfoldable pub import_entry : Entry → Db → Tally → Step
  unfolding appended tally_entry command_by_id
  import_entry e db r =
      let ev = entry_event digest codec o src e in
      if o.dry_run
      then Step.go_on db (tally_entry (is_none (command_by_id db ev.command_id)) r)
      else appended (append_local codec db ev) r

  -- The body of the loop, by the verdict of the redactor.
  unfoldable pub import_verdict : Action → Entry → Db → Tally → Step
  unfolding import_entry tally_redacted
  import_verdict Action.skip e db r = Step.go_on db (record r { skipped = r.skipped + 1 })
  import_verdict Action.redact e db r = import_entry e db (tally_redacted Action.redact r)
  import_verdict Action.nothing e db r = import_entry e db (tally_redacted Action.nothing r)

  -- The store, the result, and whether an append failed.
  unfoldable pub import_entries : List Entry → Db → Tally → Db × Tally × Bool
  unfolding import_verdict
  import_entries [] db r = (db, r, false)
  import_entries (e ∷ entries) db r = elim (import_verdict (apply o.rules e.command).1 e db r) [
    | Step.stop db' r' ↦ (db', r', true)
    | Step.go_on db' r' ↦ import_entries entries db' r'
  ]

-- `File`, for a source or for none.
unfoldable pub import_file :
    (Bytes → Bytes) → Codec → Options → Option Source → Db → Db × Tally × Bool
unfolding import_entries
import_file digest codec o none db = (db, no_tally, false)
import_file digest codec o (some src) db = import_entries digest codec o src src.entries db no_tally

-- `Add`
unfoldable pub add : Tally → Tally → Tally
add r other = record {
  new = r.new + other.new;
  existing = r.existing + other.existing;
  redacted = r.redacted + other.redacted;
  skipped = r.skipped + other.skipped;
}

abbrev part : ℕ → Bytes → Bytes
part n text = if ltb 0 n then codes ", " ++ format_nat n ++ text else []

unfoldable pub detail : Tally → Bytes
unfolding format_nat
detail r =
    format_nat r.new
    ++ codes " new"
    ++ part r.existing (codes " already present")
    ++ part r.redacted (codes " with secrets redacted")
    ++ part r.skipped (codes " skipped entirely")
