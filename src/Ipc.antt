-- ===== src/Ipc.antt =====
-- internal/ipc/ipc.go: an event handed to the daemon, or left for it in the spool file. Whether the
-- socket takes the line is a parameter, and JSON does not fail here.
use shcr.Base.{Bool, true, false, Option, none, some, List, [], ◌∷◌, ◌++◌, if◌then◌else◌}
use shcr.Base.Bytes.{Bytes}
use shcr.Event.{Event}
use shcr.Daemon.{Disk}

-- The socket's lines so far, and the files beside it.
pub record Channel : Type 0 where
  pub sent : List Bytes
  pub disk : Disk

abbrev text_of_file : Option Bytes → Bytes
text_of_file none = []
text_of_file (some text) = text

-- The line is appended to the file, which is created if need be.
unfoldable pub spool_line : Disk → Bytes → Disk
spool_line disk line = record disk { spool = some (text_of_file disk.spool ++ line) }

-- `Send`, and whether the daemon took the event.
unfoldable pub send : (Event → Bytes) → Bool → Channel → Event → Channel × Bool
unfolding spool_line
send marshal taken ch ev =
    let line = marshal ev in
    if taken
    then (record ch { sent = ch.sent ++ line ∷ [] }, true)
    else (record ch { disk = spool_line ch.disk (line ++ b'\n' ∷ []) }, false)

-- `Nudge`: nothing is left behind when nobody listens.
unfoldable pub nudge_daemon : (Bytes → Bytes) → Bool → Channel → Bytes → Channel × Bool
nudge_daemon marshal taken ch reason =
    if taken then (record ch { sent = ch.sent ++ marshal reason ∷ [] }, true) else (ch, false)
