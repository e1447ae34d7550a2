-- ===== src/Daemon/Scrub.antt =====
-- internal/daemon/daemon.go, `scrub`: what may reach the store as the text of a command.
use shcr.Base.{
  false, some, List, [], ◌∷◌, ◌≡◌, ◌≢◌, refl, ◌⊎◌, inl, inr, arith, Bool-cases, Option-cases, In,
}
use shcr.Base.Bytes.{Bytes, is_empty}
use shcr.Event.{Event, StartPayload, Codec}
use shcr.Redact.{Action, Rule, apply}
use shcr.Redact.Actions.{apply_nothing}
use shcr.Store.Types.{Db}
use shcr.Store.Unique.{events}
use shcr.Store.Growth.{append_event-In}
use shcr.Daemon.{
  Json, State, Incoming, is_start, incoming, incoming_json, incoming_event, scrub, scrub_verdict,
  Scrubbed, handle_conn,
}
use shcr.Daemon.Replay.{stored, taken, replay, handle_conn-replay}

Action-cases : (a : Action) → (a ≡ Action.nothing) ⊎ (a ≡ Action.redact) ⊎ (a ≡ Action.skip)
Action-cases Action.nothing = inl refl
Action-cases Action.redact = inr (inl refl)
Action-cases Action.skip = inr (inr refl)

module _ (json : Json) (codec : Codec) (rules : List Rule) where
  -- An event that starts no command, or one whose text is what the rules made of the text that was
  -- sent, and which no skip rule matched.
  abbrev pub Clean : Event → Type 0
  Clean e =
      (is_start e.type ≡ false)
      ⊎ ((p : StartPayload) × (codec.read_start e.payload
            ≡ some (record p { command = (apply rules p.command).0 }))
          × ((apply rules p.command).1 ≢ Action.skip))

  -- What JSON writes of a payload that it read, with the text that the rules leave, it reads back.
  abbrev pub ReadsBack : Type 0
  ReadsBack =
      (payload : Bytes) (p : StartPayload)
      → codec.read_start payload ≡ some p
      → codec.read_start (codec.write_start (record p { command = (apply rules p.command).0 }))
        ≡ some (record p { command = (apply rules p.command).0 })

  module _ (back : ReadsBack) where
    scrub_verdict-Clean :
        (e : Event) (p : StartPayload) (e' : Event) (a : Action)
        → codec.read_start e.payload ≡ some p
        → (apply rules p.command).1 ≡ a
        → scrub_verdict codec e p a (apply rules p.command).0 ≡ Scrubbed.kept e'
        → Clean e'
    unfolding scrub_verdict
    scrub_verdict-Clean e p e' Action.nothing read verdict h =
        let text = (apply_nothing rules p.command verdict).0 in
        let same : e ≡ e' = cc h in inr (p, rw (← same, text) read, λ skip. cc (skip, verdict))
    scrub_verdict-Clean e p e' Action.redact read verdict h =
        let paid : codec.write_start (record p { command = (apply rules p.command).0 })
            ≡ e'.payload =
          cc h in
        inr (p, rw (← paid) (back e.payload p read), λ skip. cc (skip, verdict))
    scrub_verdict-Clean e p e' Action.skip read verdict h = cc h

    scrub-Clean : (e e' : Event) → scrub codec rules e ≡ Scrubbed.kept e' → Clean e'
    unfolding scrub
    scrub-Clean e e' h = elim (Bool-cases (is_start e.type)) [
      | inr other ↦ let same : e ≡ e' = cc (rw other at h) in inl (rw (← same) other)
      | inl start ↦ elim (Option-cases (codec.read_start e.payload)) [
        | inl bad ↦ cc (rw (start, bad, scrub) at h)
        | inr (p, read) ↦
            scrub_verdict-Clean e p e' (apply rules p.command).1 read refl
              (rw (start, read, scrub) at h)
      ]
    ]

    incoming_event-Clean :
        (e e' : Event) → incoming_event codec rules e ≡ Incoming.append e' → Clean e'
    unfolding incoming_event
    incoming_event-Clean e e' h = ground (arith, scrub-Clean e e')

    incoming_json-Clean :
        (line : Bytes) (e : Event)
        → incoming_json json codec rules line ≡ Incoming.append e
        → Clean e
    unfolding incoming_json
    incoming_json-Clean line e h = elim (Option-cases (json.read_event line)) [
      | inl bad ↦ cc (rw (bad, incoming_json) at h)
      | inr (e', read) ↦ incoming_event-Clean e' e (rw (read, incoming_json) at h)
    ]

    incoming-Clean :
        (line : Bytes) (e : Event) → incoming json codec rules line ≡ Incoming.append e → Clean e
    unfolding incoming
    incoming-Clean line e h = elim (Option-cases (json.read_control line)) [
      | inl no_control ↦ incoming_json-Clean line e (rw (no_control, incoming) at h)
      | inr (reason, read) ↦ elim (Bool-cases (is_empty reason)) [
        | inl blank ↦ incoming_json-Clean line e (rw (read, blank, incoming) at h)
        | inr told ↦ cc (rw (read, told, incoming) at h)
      ]
    ]

    stored-Clean :
        (i : Incoming) (db : Db) (a : Event)
        → ((e : Event) → i ≡ Incoming.append e → Clean e)
        → In a (events (stored codec i db).events)
        → In a (events db.events) ⊎ Clean a
    unfolding stored
    stored-Clean (Incoming.append e) db a clean h = elim (append_event-In codec db e false a h) [
      | inl old ↦ inl old
      | inr same ↦ inr (rw same (clean e refl))
    ]
    stored-Clean (Incoming.nudge _) db a clean h = inl h
    stored-Clean (Incoming.refuse _) db a clean h = inl h
    stored-Clean Incoming.skipped db a clean h = inl h

    taken-Clean :
        (line : Bytes) (db : Db) (a : Event)
        → In a (events (taken json codec rules line db).events)
        → In a (events db.events) ⊎ Clean a
    unfolding taken
    taken-Clean line db a h = elim (Bool-cases (is_empty line)) [
      | inl blank ↦ inl (rw (blank, taken) at h)
      | inr text ↦
          stored-Clean (incoming json codec rules line) db a (incoming-Clean line)
            (rw (text, taken) at h)
    ]

    pub replay-Clean :
        (lines : List Bytes) (db : Db) (a : Event)
        → In a (events (replay json codec rules lines db).events)
        → In a (events db.events) ⊎ Clean a
    unfolding replay
    replay-Clean [] db a h = inl h
    replay-Clean (line ∷ lines) db a h =
        elim (replay-Clean lines (taken json codec rules line db) a h) [
          | inl old ↦ taken-Clean line db a old
          | inr clean ↦ inr clean
        ]

  -- Whatever lines a connection sends, an event that they bring into the log starts no command, or
  -- carries the text that the rules leave of the text sent, a text that no skip rule matched; if
  -- JSON reads back what it wrote of such a payload.
  pub handle_conn-Clean :
      (lines : List Bytes) (d : State) (a : Event)
      → ReadsBack
      → In a (events (handle_conn json codec rules lines d).db.events)
      → In a (events d.db.events) ⊎ Clean a
  handle_conn-Clean lines d a back h =
      replay-Clean back lines d.db a (rw (handle_conn-replay json codec rules lines d) at h)
