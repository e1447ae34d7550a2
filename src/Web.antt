-- ===== src/Web.antt =====
-- internal/web/sse.go: the broker that tells the dashboards of changed commands. A client is the
-- queue of its channel; the order in which a map is walked makes no difference here.
pub mod Api
pub mod Settings
use shcr.Base.{
  ℕ, ◌≤◌, Bool, true, false, none, some, List, [], ◌∷◌, ◌++◌, if◌then◌else◌, ltb, length,
  length-append, arith, All,
}
use shcr.Base.Bytes.{Bytes}
use shcr.Base.Table.{Table, upsert}
use shcr.Store.Types.{Command, Db}
use shcr.Store.Stats.{remove}
use shcr.Store.Queries.{command_by_id}
use shcr.Store.Dashboard.{events_since, max_event_row_id}

-- The capacity of a client's channel.
abbrev pub channel_size : ℕ
channel_size = 8

pub record Broker : Type 0 where
  pub last : ℕ
  pub clients : Table (List Bytes)

unfoldable pub subscribe : Bytes → Broker → Broker
unfolding upsert
subscribe client b = record b { clients = upsert client [] b.clients }

unfoldable pub unsubscribe : Bytes → Broker → Broker
unfolding remove
unsubscribe client b = record b { clients = remove client b.clients }

-- A payload that finds the channel full is dropped.
unfoldable pub offered : Bytes → List Bytes → List Bytes
offered payload queue = if ltb (length queue) channel_size then queue ++ payload ∷ [] else queue

unfoldable pub publish_all : Bytes → Table (List Bytes) → Table (List Bytes)
unfolding offered
publish_all payload [] = []
publish_all payload ((client, queue) ∷ clients) =
    (client, offered payload queue) ∷ publish_all payload clients

unfoldable pub changed_commands : Db → List Bytes → List Command
unfolding command_by_id
changed_commands db [] = []
changed_commands db (id ∷ ids) =
    let rest = changed_commands db ids in
    elim (command_by_id db id) [ none ↦ rest | some c ↦ c ∷ rest ]

abbrev has_clients : Table (List Bytes) → Bool
has_clients [] = false
has_clients (client ∷ clients) = true

-- What is published of the changed rows, where there are any; `marshal` is JSON.
unfoldable pub publish_changed : (List Command → Bytes) → List Command → Broker → Broker
unfolding publish_all
publish_changed marshal [] b = b
publish_changed marshal (c ∷ changed) b = record b {
  clients = publish_all (marshal (c ∷ changed)) b.clients;
}

-- A round of `run`.
unfoldable pub poll : (List Command → Bytes) → Db → Broker → Broker
unfolding events_since max_event_row_id changed_commands publish_changed
poll marshal db b =
    let (ids, next) = events_since db b.last in
    let watched = publish_changed marshal (changed_commands db ids) (record b { last = next }) in
    if has_clients b.clients then watched else record b { last = max_event_row_id db }

-- No channel holds more than it can.
abbrev WithinSize : Table (List Bytes) → Type 0
WithinSize clients = All (λ (client : Bytes × List Bytes). length client.1 ≤ channel_size) clients

publish_all-WithinSize :
    (payload : Bytes) (clients : Table (List Bytes))
    → WithinSize clients
    → WithinSize (publish_all payload clients)
unfolding publish_all offered
publish_all-WithinSize payload [] h = tt
publish_all-WithinSize payload ((client, queue) ∷ clients) h = (
  ground (arith, h.0, length-append queue (payload ∷ [])),
  publish_all-WithinSize payload clients h.1,
)
