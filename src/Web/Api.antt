-- ===== src/Web/Api.antt =====
-- internal/web/api.go: the handlers of the dashboard, from the values of a request to what is
-- answered. The query's parameters, the numbers in them, the identifiers and the clock are
-- parameters; statements of the store do not fail here, and writing the answer is I/O.
use shcr.Base.{ℕ, Bool, true, false, Option, none, some, List, ◌∷◌, ◌^◌, map, if◌then◌else◌}
use shcr.Base.Bytes.{Bytes, codes, is_empty}
use shcr.Base.Int.{ℤ, pos, ltb_ℤ}
use shcr.Base.Table.{Table, lookup}
use shcr.Event.{Codec, Event, EventType}
use shcr.Store.Types.{Command, Cursor, Db}
use shcr.Store.Log.{Result, ok, bad_payload, append_local}
use shcr.Store.Queries.{Filter, query_commands, command_by_id, session_context, session_after}
use shcr.Store.Dashboard.{RunInfo, runs_today, commands_per_device}
use shcr.Store.Cursors.{cursors}

abbrev default_limit : ℤ
default_limit = pos 100

abbrev max_limit : ℤ
max_limit = pos 1000

abbrev session_peers : ℤ
session_peers = pos 5

-- A successful answer, or the statuses 400, 404, 412, 500 and 502.
pub data Answer (A : Type 0) : Type 0 where
  answer : A → Answer A
  bad_request not_found precondition_failed internal_error bad_gateway : Answer A

abbrev pub clamp : ℤ → ℤ → ℤ → ℤ
clamp n lo hi = let least = if ltb_ℤ n lo then lo else n in if ltb_ℤ hi least then hi else least

-- `clampInt`, over `strconv.Atoi`.
unfoldable pub clamp_int : (Bytes → Option ℤ) → Bytes → ℤ → ℤ → ℤ → ℤ
clamp_int atoi raw default lo hi =
    if is_empty raw then default else elim (atoi raw) [ none ↦ default | some n ↦ clamp n lo hi ]

-- What `strconv.ParseInt` returns for a text that is there.
abbrev number_of : (Bytes → ℤ) → Bytes → ℤ
number_of parse_int raw = if is_empty raw then pos 0 else parse_int raw

-- The filter of a request, whose parameters are read by `get`.
unfoldable pub request_filter : (Bytes → Option ℤ) → (Bytes → ℤ) → (Bytes → Bytes) → Filter
unfolding clamp_int
request_filter atoi parse_int get = record {
  text = get (codes "q");
  hostname = get (codes "host");
  status = get (codes "status");
  session_id = get (codes "session");
  cwd = get (codes "cwd");
  since = number_of parse_int (get (codes "since"));
  until = number_of parse_int (get (codes "before"));
  limit = clamp_int atoi (get (codes "limit")) default_limit (pos 1) max_limit;
  offset = clamp_int atoi (get (codes "offset")) (pos 0) (pos 0) (pos (2 ^ 30));
}

pub record CommandPage : Type 0 where
  pub commands : List Command
  pub limit : ℤ
  pub runs : Table RunInfo

-- `handleCommands`; `midnight` is the start of the local day.
unfoldable pub handle_commands : (Bytes → Bytes → Bool) → Db → Filter → ℤ → CommandPage
unfolding query_commands runs_today
handle_commands matches db f midnight = record {
  commands = query_commands matches db f;
  limit = f.limit;
  runs = runs_today db midnight;
}

-- What is told of one command; `U` is a row of the ranking cache.
pub record CommandView (U : Type 0) : Type 0 where
  pub command : Command
  pub usage : Option U
  pub session_before : List Command
  pub session_behind : List Command

unfoldable pub handle_command :
    {U : Type 0} → (Bytes → Bytes → Bool) → Table U → Db → Bytes → Answer (CommandView U)
unfolding command_by_id session_context session_after lookup
handle_command matches usage_of db id = elim (command_by_id db id) [
  | none ↦ not_found
  | some c ↦ answer (record {
    command = c;
    usage = lookup c.command usage_of;
    session_before = session_context matches db c.session_id c.start_time session_peers;
    session_behind = session_after db c.session_id c.start_time session_peers;
  })
]

-- The event of `handleRedact`; `event_id`, `payload` and `now` are those of event.New.
abbrev pub redact_event : Bytes → Bytes → Bytes → Bytes → ℤ → Event
redact_event event_id command_id device_id payload now = record {
  event_id = event_id;
  command_id = command_id;
  device_id = device_id;
  type = EventType.redact;
  payload = payload;
  created_at = now;
}

-- What `handleRedact` answers behind the append.
unfoldable pub behind_append : Bytes → Db × Result Bool → Db × Answer (Option Command)
unfolding command_by_id
behind_append id (db, ok inserted) = (db, answer (command_by_id db id))
behind_append id (db, bad_payload) = (db, internal_error)

unfoldable pub handle_redact :
    Codec → Db → Bytes → Bytes → Bytes → Bytes → ℤ → Db × Answer (Option Command)
unfolding command_by_id behind_append
handle_redact codec db id device_id event_id payload now = elim (command_by_id db id) [
  | none ↦ (db, not_found)
  | some c ↦
      behind_append id (append_local codec db (redact_event event_id c.id device_id payload now))
]

pub record Device : Type 0 where
  pub device_id : Bytes
  pub hostname : Bytes
  pub is_this_device : Bool
  pub last_synced_at : ℤ
  pub commands : ℕ

abbrev count_of : Option ℕ → ℕ
count_of none = 0
count_of (some n) = n

unfoldable pub peer_device : Table ℕ → Cursor → Device
unfolding lookup
peer_device counts c = record {
  device_id = c.peer_device_id;
  hostname = c.hostname_hint;
  is_this_device = false;
  last_synced_at = c.last_synced_at;
  commands = count_of (lookup c.peer_device_id counts);
}

unfoldable pub handle_devices : Db → Bytes → Bytes → List Device
unfolding commands_per_device cursors peer_device lookup
handle_devices db device_id hostname =
    let counts = commands_per_device db in
    record {
      device_id = device_id;
      hostname = hostname;
      is_this_device = true;
      last_synced_at = pos 0;
      commands = count_of (lookup device_id counts);
    }
    ∷ map (peer_device counts) (cursors db)

-- `handleSync`: no sync function, one that fails, or what it has pushed and pulled.
unfoldable pub handle_sync : Option (Option (ℕ × ℕ)) → Answer (ℕ × ℕ)
handle_sync none = precondition_failed
handle_sync (some none) = bad_gateway
handle_sync (some (some moved)) = answer moved
