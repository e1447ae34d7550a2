-- ===== src/Store/Refresh.antt =====
-- internal/store/stats.go: what a pass leaves in the ranking cache.
use shcr.Base.{
  ℕ, Bool, true, false, Option, none, some, List, [], ◌∷◌, if◌then◌else◌, ◌==◌, drop, ◌≡◌, refl, ap,
  ◌∙◌, arith, Bool-cases, inl, inr,
}
use shcr.Base.Bytes.{Bytes, bytes_eq, bytes_eq_iff}
use shcr.Base.Table.{Table, lookup, upsert, lookup-upsert}
use shcr.Rank.Frecency.{Weights}
use shcr.Store.Types.{Db}
use shcr.Store.Stats.{
  CommandStat, Cache, has_text, distinct, texts_of, joined_texts, remove, stat_for, changed,
  refresh_each, refresh_command_stats,
}

lookup-remove :
    {V : Type 0} (k j : Bytes) (t : Table V)
    → lookup j (remove k t) ≡ (if bytes_eq k j then none else lookup j t)
unfolding lookup remove
lookup-remove k j [] = ground arith
lookup-remove k j ((i, w) ∷ t) =
    ground (arith, bytes_eq_iff k j, bytes_eq_iff i k, bytes_eq_iff i j, lookup-remove k j t)

has_text-distinct :
    (c : Bytes) (texts : List Bytes) → has_text c (distinct texts) ≡ has_text c texts
unfolding has_text distinct
has_text-distinct c [] = refl
has_text-distinct c (d ∷ texts) = elim (Bool-cases (bytes_eq d c)) [
  | inl same ↦
      let e = ap (λ x. has_text x texts) ((bytes_eq_iff d c).0 same) in
      ground (arith, same, e, has_text-distinct c texts)
  | inr differ ↦ ground (arith, differ, has_text-distinct c texts)
]

module _ {W : Type 0} (weights : Weights W) where
  -- The cached row of a command that a pass has looked at.
  abbrev pub refreshed : Db → Bytes → Option (CommandStat W)
  refreshed db text =
      if (stat_for weights db text).runs == 0 then none else some (stat_for weights db text)

  lookup-one :
      (db : Db) (d text : Bytes) (cache : Table (CommandStat W))
      → lookup text (
          if (stat_for weights db d).runs == 0
          then remove d cache
          else upsert d (stat_for weights db d) cache)
        ≡ (if bytes_eq d text then refreshed db text else lookup text cache)
  lookup-one db d text cache = elim (Bool-cases (bytes_eq d text)) [
    | inl same ↦
        let e : stat_for weights db d ≡ stat_for weights db text =
          ap (stat_for weights db) ((bytes_eq_iff d text).0 same) in
        elim (Bool-cases ((stat_for weights db d).runs == 0)) [
          | inl no_run ↦
              let no_run' : ((stat_for weights db text).runs == 0) ≡ true = rw e at no_run in
              rw (no_run, same, no_run') (lookup-remove d text cache ∙ rw same refl)
          | inr run ↦
              let run' : ((stat_for weights db text).runs == 0) ≡ false = rw e at run in
              rw (run, same, run')
                (lookup-upsert d text (stat_for weights db d) cache ∙ rw same (ap some e))
        ]
    | inr differ ↦ elim (Bool-cases ((stat_for weights db d).runs == 0)) [
      | inl no_run ↦ rw (no_run, differ) (lookup-remove d text cache ∙ rw differ refl)
      | inr run ↦
          rw (run, differ) (lookup-upsert d text (stat_for weights db d) cache ∙ rw differ refl)
    ]
  ]

  lookup-refresh_each :
      (db : Db) (texts : List Bytes) (cache : Table (CommandStat W)) (text : Bytes)
      → lookup text (refresh_each weights db texts cache)
        ≡ (if has_text text texts then refreshed db text else lookup text cache)
  unfolding refresh_each has_text
  lookup-refresh_each db [] cache text = refl
  lookup-refresh_each db (d ∷ texts) cache text =
      let next =
        if (stat_for weights db d).runs == 0
        then remove d cache
        else upsert d (stat_for weights db d) cache in
      lookup-refresh_each db texts next text ∙ (elim (Bool-cases (has_text text texts)) [
        | inl later ↦ rw later (ground (arith, later))
        | inr not_later ↦ rw not_later (lookup-one db d text cache ∙ (ground (arith, not_later)))
      ])

  -- The commands with a text that is not empty, all of them or those of the events behind `from`.
  abbrev pub in_scope : Db → ℕ → Bytes → Bool
  in_scope db from text =
      if from == 0
      then has_text text (texts_of db.commands)
      else has_text text (joined_texts db.commands (drop from db.events))

  -- A pass recomputes exactly the cached rows of the texts that it looks at, those that the rows of
  -- the touched commands have now. It keeps every other cached row, except that a rebuild drops it.
  pub refresh_exact :
      (db : Db) (from : ℕ) (cache : Cache W) (text : Bytes)
      → lookup text (refresh_command_stats weights db from cache).2.command_stats ≡ (
          if in_scope db from text
          then refreshed db text
          else if from == 0
          then none
          else lookup text cache.command_stats)
  unfolding refresh_command_stats changed lookup
  refresh_exact db from cache text = elim (Bool-cases (from == 0)) [
    | inl rebuild ↦ rw rebuild (
        lookup-refresh_each db (distinct (texts_of db.commands)) [] text
        ∙ rw (has_text-distinct text (texts_of db.commands)) refl)
    | inr pass ↦
        let texts = joined_texts db.commands (drop from db.events) in
        rw pass (
          lookup-refresh_each db (distinct texts) cache.command_stats text
          ∙ rw (has_text-distinct text texts) refl)
  ]
