-- ===== src/Daemon.antt =====
-- internal/daemon/daemon.go: the events that arrive on the socket or wait in the spool file, and
-- the sweep for commands whose shell is gone. JSON, the clock, new identifiers and the signal that
-- asks whether a process is there are parameters, and so is the text of a socket or a file.
pub mod Replay
pub mod Crash
pub mod Scrub
pub mod Sweep
pub mod Spared
use shcr.Base.{
  ℕ, ◌+◌, ◌*◌, Bool, true, false, ◌||◌, Option, none, some, List, [], ◌∷◌, ◌++◌, if◌then◌else◌,
}
use shcr.Base.Bytes.{Bytes, codes, is_empty}
use shcr.Base.Int.{ℤ, pos, ◌-ℤ◌, ltb_ℤ, leb_ℤ, wrap64}
use shcr.Event.{Event, EventType, StartPayload, Codec}
use shcr.Redact.{Action, Rule, apply}
use shcr.Histfile.Scanner.{scan_within}
use shcr.Store.Types.{Command, Db}
use shcr.Store.Log.{ok, bad_payload, append_local}
use shcr.Store.Queries.{live_commands}
use shcr.Store.Stats.{Cache, refresh_command_stats}
use shcr.Rank.Frecency.{Weights}

-- `json.Unmarshal` of a line into a control message, of which this is the nudge, and into an
-- event, with `none` for an error.
pub record Json : Type 0 where
  pub read_control : Bytes → Option Bytes
  pub read_event : Bytes → Option Event

-- The store, and what `OnTrigger` has been told so far.
pub record State : Type 0 where
  pub db : Db
  pub triggers : List Bytes

pub data Fault : Type 0 where
  bad_json missing_fields bad_start not_stored : Fault

pub data Scrubbed : Type 0 where
  unreadable dropped : Scrubbed
  kept : Event → Scrubbed

-- The limit of the scanner in `drainFile`, and in `handleConn`.
abbrev pub spool_line_limit : ℕ
spool_line_limit = 4 * 1024 * 1024

-- What a line asks for, as far as `ingest` can tell without the store.
pub data Incoming : Type 0 where
  nudge : Bytes → Incoming
  refuse : Fault → Incoming
  skipped : Incoming
  append : Event → Incoming

abbrev pub is_start : EventType → Bool
is_start EventType.start = true
is_start _ = false

-- `ev.Type == ""`
abbrev no_type : EventType → Bool
no_type (EventType.other name) = is_empty name
no_type _ = false

unfoldable pub trigger : Bytes → State → State
trigger reason d = record d { triggers = d.triggers ++ reason ∷ [] }

-- The state behind a line, and the error, if there is one.
unfoldable pub take_in : Codec → State → Incoming → State × Option Fault
unfolding trigger
take_in codec d (Incoming.nudge reason) = (trigger reason d, none)
take_in codec d (Incoming.refuse fault) = (d, some fault)
take_in codec d Incoming.skipped = (d, none)
take_in codec d (Incoming.append e) =
    let (db, result) = append_local codec d.db e in
    elim result [
      | bad_payload ↦ (record d { db = db }, some Fault.not_stored)
      | ok inserted ↦ (trigger (codes "command") (record d { db = db }), none)
    ]

-- The `switch` of `scrub` and what follows it.
unfoldable pub scrub_verdict : Codec → Event → StartPayload → Action → Bytes → Scrubbed
scrub_verdict codec e p Action.nothing text = Scrubbed.kept e
scrub_verdict codec e p Action.skip text = Scrubbed.dropped
scrub_verdict codec e p Action.redact text =
    Scrubbed.kept (record e { payload = codec.write_start (record p { command = text }) })

module _ (codec : Codec) (rules : List Rule) where
  unfoldable pub scrub : Event → Scrubbed
  unfolding scrub_verdict
  scrub e =
      if is_start e.type
      then elim (codec.read_start e.payload) [
        | none ↦ Scrubbed.unreadable
        | some p ↦ scrub_verdict codec e p (apply rules p.command).1 (apply rules p.command).0
      ]
      else Scrubbed.kept e

  unfoldable pub incoming_event : Event → Incoming
  unfolding scrub
  incoming_event e =
      if is_empty e.event_id || is_empty e.command_id || no_type e.type
      then Incoming.refuse Fault.missing_fields
      else elim (scrub e) [
        | Scrubbed.unreadable ↦ Incoming.refuse Fault.bad_start
        | Scrubbed.dropped ↦ Incoming.skipped
        | Scrubbed.kept scrubbed ↦ Incoming.append scrubbed
      ]

module _ (json : Json) (codec : Codec) (rules : List Rule) where
  unfoldable pub incoming_json : Bytes → Incoming
  unfolding incoming_event
  incoming_json line = elim (json.read_event line) [
    | none ↦ Incoming.refuse Fault.bad_json
    | some e ↦ incoming_event codec rules e
  ]

  unfoldable pub incoming : Bytes → Incoming
  unfolding incoming_json
  incoming line = elim (json.read_control line) [
    | none ↦ incoming_json line
    | some reason ↦ if is_empty reason then incoming_json line else Incoming.nudge reason
  ]

  unfoldable pub ingest : State → Bytes → State × Option Fault
  unfolding incoming take_in
  ingest d line = take_in codec d (incoming line)

  -- The lines that the scanner of one connection returns; an error is logged.
  unfoldable pub handle_conn : List Bytes → State → State
  unfolding ingest
  handle_conn [] d = d
  handle_conn (line ∷ lines) d =
      if is_empty line then handle_conn lines d else handle_conn lines (ingest d line).0

  -- The loop of `drainFile` from `n` on: an error is logged, and the line is not counted.
  unfoldable pub drain_lines : List Bytes → State → ℕ → State × ℕ
  unfolding ingest
  drain_lines [] d n = (d, n)
  drain_lines (line ∷ lines) d n =
      let (next, fault) = ingest d line in
      if is_empty line
      then drain_lines lines d n
      else drain_lines lines next (elim fault [ none ↦ n + 1 | some _ ↦ n ])

  -- `none` is a file that is not there; the caller's disk has no such file afterwards. The last value
  -- is whether the scanner met a line that is too long, behind which nothing is read.
  unfoldable pub drain_file : Option Bytes → State → State × ℕ × Bool
  unfolding drain_lines scan_within
  drain_file none d = (d, 0, false)
  drain_file (some text) d =
      let (lines, too_long) = scan_within spool_line_limit text in
      let (d', n) = drain_lines lines d 0 in (d', n, too_long)

-- The two files: the spool, and the one that it is moved to.
pub record Disk : Type 0 where
  pub spool : Option Bytes
  pub draining : Option Bytes

module _ (json : Json) (codec : Codec) (rules : List Rule) where
  -- Where there is a spool it is moved aside, drained and removed.
  unfoldable pub drain_fresh : Option Bytes → State → Disk × State × ℕ × Bool
  unfolding drain_file
  drain_fresh none d = (record { spool = none; draining = none }, d, 0, false)
  drain_fresh (some text) d =
      let (d', n, failed) = drain_file json codec rules (some text) d in
      (record { spool = none; draining = none }, d', n, failed)

  -- `DrainSpool`, with the count and whether it ends in an error: one of the file that was left
  -- behind leaves the spool where it is.
  unfoldable pub drain_spool : Disk → State → Disk × State × ℕ × Bool
  unfolding drain_file drain_fresh
  drain_spool disk d =
      let (d₁, n, failed) = drain_file json codec rules disk.draining d in
      let (disk', d₂, more, failed') = drain_fresh disk.spool d₁ in
      if failed
      then (record { spool = disk.spool; draining = none }, d₁, n, true)
      else (disk', d₂, n + more, failed')

unfoldable pub refresh_stats : {W : Type 0} → Weights W → Db → Cache W → ℕ × Cache W
unfolding refresh_command_stats
refresh_stats weights db cache =
    let (n, _, cache') = refresh_command_stats weights db cache.watermark cache in (n, cache')

-- What `event.New` draws for an orphan event, and the time that goes into its payload.
pub record OrphanDraw : Type 0 where
  pub id : Bytes
  pub detected_at : ℤ
  pub created_at : ℤ

-- `shellAlive`, JSON for the payload, and the draws one after another.
pub record Probe : Type 0 where
  pub shell_alive : ℤ → Bool
  pub orphan_payload : ℤ → Bytes
  pub draws : ℕ → OrphanDraw

abbrev pub sweep_grace : ℤ
sweep_grace = pos 5000

-- The two `continue`s of the loop.
unfoldable pub is_left : Probe → ℤ → Command → Bool
is_left probe cutoff c =
    leb_ℤ c.pgid (pos 1) || ltb_ℤ cutoff c.start_time || probe.shell_alive c.pgid

module _ (probe : Probe) (device : Bytes) where
  abbrev pub orphan_event : Command → ℕ → Event
  orphan_event c n = record {
    event_id = (probe.draws n).id;
    command_id = c.id;
    device_id = device;
    type = EventType.orphan;
    payload = probe.orphan_payload (probe.draws n).detected_at;
    created_at = (probe.draws n).created_at;
  }

module _ (codec : Codec) (probe : Probe) (device : Bytes) where
  -- The loop from `n` on: the store, the count, and whether an append failed.
  unfoldable pub sweep_loop : ℤ → List Command → Db → ℕ → Db × ℕ × Bool
  unfolding is_left
  sweep_loop cutoff [] db n = (db, n, false)
  sweep_loop cutoff (c ∷ live) db n =
      let passed = sweep_loop cutoff live db n in
      let (db', result) = append_local codec db (orphan_event probe device c n) in
      let marked = sweep_loop cutoff live db' (n + 1) in
      if is_left probe cutoff c
      then passed
      else elim result [ bad_payload ↦ (db', n, true) | ok _ ↦ marked ]

  unfoldable pub sweep_orphans : ℤ → Db → Db × ℕ × Bool
  unfolding live_commands sweep_loop
  sweep_orphans now db = sweep_loop (wrap64 (now -ℤ sweep_grace)) (live_commands db device) db 0
