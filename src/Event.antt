-- ===== src/Event.antt =====
-- internal/event/event.go: the event log's types, and what the program takes from encoding/json.
use shcr.Base.{Bool, Option}
use shcr.Base.Bytes.{Bytes, codes}
use shcr.Base.Int.{ℤ}

-- `other` is any type string that the program does not name, the empty one included.
pub data EventType : Type 0 where
  start end orphan redact import : EventType
  other : Bytes → EventType

abbrev pub redacted_marker : Bytes
redacted_marker = codes "[REDACTED]"

pub record Event : Type 0 where
  pub event_id : Bytes
  pub command_id : Bytes
  pub device_id : Bytes
  pub type : EventType
  pub payload : Bytes
  pub created_at : ℤ

pub record StartPayload : Type 0 where
  pub command : Bytes
  pub hostname : Bytes
  pub session_id : Bytes
  pub cwd : Bytes
  pub git_branch : Bytes
  pub shell : Bytes
  pub start_time : ℤ
  pub pgid : ℤ
  pub is_background : Bool

pub record ImportPayload : Type 0 where
  pub command : Bytes
  pub hostname : Bytes
  pub shell : Bytes
  pub start_time : ℤ
  pub approximate_time : Bool
  pub duration_ms : ℤ
  pub source : Bytes

pub record EndPayload : Type 0 where
  pub end_time : ℤ
  pub exit_code : ℤ

-- `json.Unmarshal` into each payload type, with `none` for an error, and `json.Marshal` of it.
pub record Codec : Type 0 where
  pub read_start : Bytes → Option StartPayload
  pub read_end : Bytes → Option EndPayload
  pub read_import : Bytes → Option ImportPayload
  pub write_start : StartPayload → Bytes
  pub write_import : ImportPayload → Bytes
