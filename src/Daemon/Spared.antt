-- ===== src/Daemon/Spared.antt =====
-- internal/daemon/daemon.go, `SweepOrphans`: the commands that a sweep leaves alone.
use shcr.Base.{
  Bool, true, false, ◌&&◌, some, List, [], ◌∷◌, In, ◌≡◌, ◌≢◌, refl, sym, ap, ◌∙◌, ◌⊎◌, inl, inr,
  arith, Bool-cases,
}
use shcr.Base.Bytes.{Bytes, bytes_eq, bytes_eq_iff}
use shcr.Base.Int.{ℤ, pos, ◌-ℤ◌, ◌≤ℤ◌, ◌<ℤ◌, wrap64}
use shcr.Base.Table.{Table, lookup}
use shcr.Event.{Codec}
use shcr.Store.Types.{Command, Status, Db}
use shcr.Store.Queries.{rows_of, filter, is_running, live_commands}
use shcr.Store.Keyed.{Keyed, IsNewKey}
use shcr.Daemon.{Probe, is_left, sweep_grace, sweep_orphans}
use shcr.Daemon.Sweep.{sweep_loop-other}

In-filter :
    (wanted : Command → Bool) (c : Command) (l : List Command)
    → In c (filter wanted l)
    → In c l × (wanted c ≡ true)
unfolding filter
In-filter wanted c [] h = absurd h
In-filter wanted c (x ∷ l) h = elim (Bool-cases (wanted x)) [
  | inl kept ↦
      let h' : In c (x ∷ filter wanted l) = rw kept at h in
      elim h' [
        | inl e ↦ (inl e, ap wanted e ∙ kept)
        | inr q ↦ let (there, w) = In-filter wanted c l q in (inr there, w)
      ]
  | inr dropped ↦ let (there, w) = In-filter wanted c l (rw dropped at h) in (inr there, w)
]

IsNewKey-In :
    (k : Bytes) (c : Command) (rows : Table Command)
    → IsNewKey k rows
    → Keyed rows
    → In c (rows_of rows)
    → bytes_eq k c.id ≡ false
IsNewKey-In k c [] new keyed h = absurd h
IsNewKey-In k c ((j, d) ∷ rows) new keyed (inl e) =
    ap (bytes_eq k) (ap (λ (x : Command). x.id) e ∙ keyed.0) ∙ new.0
IsNewKey-In k c ((j, d) ∷ rows) new keyed (inr q) = IsNewKey-In k c rows new.1 keyed.2 q

Keyed-lookup :
    (c : Command) (rows : Table Command)
    → Keyed rows
    → In c (rows_of rows)
    → lookup c.id rows ≡ some c
unfolding lookup
Keyed-lookup c [] keyed h = absurd h
Keyed-lookup c ((j, d) ∷ rows) keyed (inl e) =
    let own : j ≡ c.id = sym (ap (λ (x : Command). x.id) e ∙ keyed.0) in
    rw ((bytes_eq_iff j c.id).1 own) (ap some (sym e))
Keyed-lookup c ((j, d) ∷ rows) keyed (inr q) =
    rw (IsNewKey-In j c rows keyed.1 keyed.2 q) (Keyed-lookup c rows keyed.2 q)

-- What keeps a sweep from a command: it has a result, it is another device's, its process group is
-- none that a shell can have, it started less than the grace ago, or its shell is there.
abbrev pub Spared : Probe → Bytes → ℤ → Command → Type 0
Spared probe device now c =
    (c.status ≢ Status.running)
    ⊎ (c.device_id ≢ device)
    ⊎ (c.pgid ≤ℤ pos 1)
    ⊎ (wrap64 (now -ℤ sweep_grace) <ℤ c.start_time)
    ⊎ (probe.shell_alive c.pgid ≡ true)

is_running-only : (s : Status) → is_running s ≡ true → s ≡ Status.running
unfolding is_running
is_running-only Status.running h = refl
is_running-only Status.completed h = cc h
is_running-only Status.failed h = cc h
is_running-only Status.orphaned h = cc h

not_swept :
    (probe : Probe) (device : Bytes) (now : ℤ) (c : Command)
    → Spared probe device now c
    → (is_running c.status && bytes_eq c.device_id device) ≡ true
    → is_left probe (wrap64 (now -ℤ sweep_grace)) c ≡ false
    → ⊥
unfolding is_left
not_swept probe device now c (inl over) live stale =
    over (is_running-only c.status (ground (arith, live)))
not_swept probe device now c (inr (inl other)) live stale =
    other ((bytes_eq_iff c.device_id device).0 (ground (arith, live)))
not_swept probe device now c (inr (inr (inl low))) live stale = ground (arith, low, stale)
not_swept probe device now c (inr (inr (inr (inl young)))) live stale = ground (arith, young, stale)
not_swept probe device now c (inr (inr (inr (inr alive)))) live stale = ground (arith, alive, stale)

module _ (codec : Codec) (probe : Probe) (device : Bytes) where
  swept-other :
      (now : ℤ) (db : Db) (c : Command)
      → Keyed db.commands
      → lookup c.id db.commands ≡ some c
      → Spared probe device now c
      → (c' : Command) → In c' (live_commands db device)
      → is_left probe (wrap64 (now -ℤ sweep_grace)) c' ≡ false
      → bytes_eq c'.id c.id ≡ false
  unfolding live_commands
  swept-other now db c keyed here spared c' live stale =
      let (there, w) =
        In-filter (λ (x : Command). is_running x.status && bytes_eq x.device_id device) c'
          (rows_of db.commands) live in
      elim (Bool-cases (bytes_eq c'.id c.id)) [
        | inr differ ↦ differ
        | inl same_id ↦
            let id : c'.id ≡ c.id = (bytes_eq_iff c'.id c.id).0 same_id in
            let found : some c' ≡ some c =
              sym (Keyed-lookup c' db.commands keyed there)
              ∙ ap (λ k. lookup k db.commands) id
              ∙ here in
            let same : c' ≡ c = cc found in
            absurd (not_swept probe device now c spared (rw same at w) (rw same at stale))
      ]

  -- A sweep leaves the row of a command as it is that has a result, that is another device's, that
  -- has no process group of a shell, that started less than the grace ago or whose shell is there, if
  -- the rows stand under their own ids and no two under one.
  pub sweep_orphans_spares :
      (now : ℤ) (db : Db) (c : Command)
      → Keyed db.commands
      → lookup c.id db.commands ≡ some c
      → Spared probe device now c
      → lookup c.id (sweep_orphans codec probe device now db).0.commands ≡ some c
  unfolding sweep_orphans
  sweep_orphans_spares now db c keyed here spared =
      sweep_loop-other codec probe device (wrap64 (now -ℤ sweep_grace)) (live_commands db device) db
        0 c.id (swept-other now db c keyed here spared)
      ∙ here
