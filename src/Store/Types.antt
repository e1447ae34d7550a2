-- ===== src/Store/Types.antt =====
-- internal/store/store.go and schema.go: the rows of the tables, and the database as their lists.
use shcr.Base.{Bool, Option, List, []}
use shcr.Base.Bytes.{Bytes}
use shcr.Base.Int.{ℤ}
use shcr.Base.Table.{Table}
use shcr.Event.{Event}

pub data Status : Type 0 where
  running completed failed orphaned : Status

pub record Command : Type 0 where
  pub id : Bytes
  pub command : Bytes
  pub hostname : Bytes
  pub device_id : Bytes
  pub session_id : Bytes
  pub cwd : Bytes
  pub git_branch : Option Bytes
  pub shell : Bytes
  pub start_time : ℤ
  pub end_time : Option ℤ
  pub exit_code : Option ℤ
  pub duration_ms : Option ℤ
  pub status : Status
  pub pgid : ℤ
  pub is_background : Bool
  pub imported : Bool

-- A row of `events`; the flag is the column `synced`.
pub record Row : Type 0 where
  pub event : Event
  pub synced : Bool

pub record Cursor : Type 0 where
  pub peer_device_id : Bytes
  pub last_batch_key : Bytes
  pub last_synced_at : ℤ
  pub hostname_hint : Bytes

-- The tables: `events` in rowid order, the others by their keys. `commands_fts` is keyed by the
-- rowid of a command's row, which here is the command's id.
pub record Db : Type 0 where
  pub events : List Row
  pub commands : Table Command
  pub commands_fts : Table Bytes
  pub sync_cursors : Table Cursor

-- What the migrations create.
abbrev pub empty_db : Db
empty_db = record { events = []; commands = []; commands_fts = []; sync_cursors = [] }
