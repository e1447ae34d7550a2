-- ===== src/Store/Queries.antt =====
-- internal/store/store.go: what is read of the command rows and of the event log. `MATCH` of FTS5 is
-- a parameter, a function of a query and a text; rows that an ORDER BY does not tell apart stay in
-- the order of the table.
use shcr.Base.{
  ℕ, Bool, true, false, not, ◌&&◌, ◌||◌, Option, none, some, List, [], ◌∷◌, ◌++◌, if◌then◌else◌,
  map, length, take, drop, ltb, leb, ◌==◌,
}
use shcr.Base.Bytes.{Bytes, codes, bytes_eq, bytes_lt, is_empty}
use shcr.Base.Int.{ℤ, pos, pos_part, ltb_ℤ, leb_ℤ, eqb_ℤ}
use shcr.Base.Sort.{sort}
use shcr.Base.Table.{Table, lookup}
use shcr.Event.{Event}
use shcr.Store.Types.{Command, Status, Row, Db}
use shcr.Store.Recompute.{before}
use shcr.Store.Stats.{starts_before}

abbrev pub rows_of : Table Command → List Command
rows_of rows = map (λ (row : Bytes × Command). row.1) rows

-- WHERE …
unfoldable pub filter : {A : Type 0} → (A → Bool) → List A → List A
filter wanted [] = []
filter wanted (x ∷ xs) = if wanted x then x ∷ filter wanted xs else filter wanted xs

-- `Filter`; an empty string or a number that is not positive is no constraint.
pub record Filter : Type 0 where
  pub text : Bytes
  pub hostname : Bytes
  pub status : Bytes
  pub session_id : Bytes
  pub cwd : Bytes
  pub since : ℤ
  pub until : ℤ
  pub limit : ℤ
  pub offset : ℤ

abbrev pub no_filter : Filter
no_filter = record {
  text = [];
  hostname = [];
  status = [];
  session_id = [];
  cwd = [];
  since = pos 0;
  until = pos 0;
  limit = pos 0;
  offset = pos 0;
}

-- The column `status`.
abbrev pub status_name : Status → Bytes
status_name Status.running = codes "running"
status_name Status.completed = codes "completed"
status_name Status.failed = codes "failed"
status_name Status.orphaned = codes "orphaned"

-- On the bytes of valid UTF-8: those of a rune above 127 are above 127.
unfoldable pub is_fts_word_char : ℕ → Bool
is_fts_word_char c =
    leb b'a' c && leb c b'z' || leb b'A' c && leb c b'Z' || leb b'0' c && leb c b'9' || ltb 127 c

-- The words of a text behind the letters `cur`.
unfoldable pub fts_tokens : Bytes → Bytes → List Bytes
unfolding is_fts_word_char
fts_tokens cur [] = if is_empty cur then [] else cur ∷ []
fts_tokens cur (c ∷ text) =
    let longer = fts_tokens (cur ++ c ∷ []) text in
    let next = fts_tokens [] text in
    if is_fts_word_char c then longer else if is_empty cur then next else cur ∷ next

-- `strings.ReplaceAll(t, "\"", "\"\"")`
unfoldable pub double_quotes : Bytes → Bytes
double_quotes [] = []
double_quotes (c ∷ t) = let rest = double_quotes t in if c == b'"' then c ∷ c ∷ rest else c ∷ rest

unfoldable pub quoted : Bytes → Bytes
unfolding double_quotes
quoted t = b'"' ∷ double_quotes t ++ b'"' ∷ []

-- The quoted words, joined by spaces, with a wildcard behind the last.
unfoldable pub fts_parts : List Bytes → Bytes
unfolding quoted
fts_parts [] = []
fts_parts (t ∷ []) = quoted t ++ b'*' ∷ []
fts_parts (t ∷ u ∷ ts) = quoted t ++ b' ' ∷ fts_parts (u ∷ ts)

unfoldable pub fts_query : Bytes → Bytes
unfolding fts_tokens fts_parts
fts_query text = fts_parts (fts_tokens [] text)

abbrev is : Bytes → Bytes → Bool
is wanted column = is_empty wanted || bytes_eq column wanted

-- ORDER BY start_time ASC, id ASC
abbrev pub older : Command → Command → Bool
older a b =
    ltb_ℤ a.start_time b.start_time || (eqb_ℤ a.start_time b.start_time && bytes_lt a.id b.id)

-- ORDER BY start_time DESC, id DESC
abbrev pub newer : Command → Command → Bool
newer a b = older b a

-- LIMIT with a negative number is no limit, and OFFSET with one is none.
unfoldable pub limited : {A : Type 0} → ℤ → List A → List A
limited limit rows = if ltb_ℤ limit (pos 0) then rows else take (pos_part limit) rows

module _ (matches : Bytes → Bytes → Bool) where
  -- rowid IN (SELECT rowid FROM commands_fts WHERE commands_fts MATCH ?)
  unfoldable pub in_index : Db → Bytes → Bytes → Bool
  unfolding lookup
  in_index db query id = elim (lookup id db.commands_fts) [
    | none ↦ false
    | some text ↦ matches query text
  ]

  -- The clause for the text: nothing matches a text without a word.
  unfoldable pub text_clause : Db → Bytes → Bytes → Bool
  unfolding fts_query in_index
  text_clause db text id =
      let query = fts_query text in is_empty text || (not (is_empty query) && in_index db query id)

  -- The conditions of `buildWhere`, joined by AND.
  unfoldable pub build_where : Db → Filter → Command → Bool
  unfolding text_clause
  build_where db f c =
      text_clause db f.text c.id
      && is f.hostname c.hostname
      && is f.status (status_name c.status)
      && is f.session_id c.session_id
      && is f.cwd c.cwd
      && (leb_ℤ f.since (pos 0) || leb_ℤ f.since c.start_time)
      && (leb_ℤ f.until (pos 0) || ltb_ℤ c.start_time f.until)

  unfoldable pub query_commands : Db → Filter → List Command
  unfolding build_where filter
  query_commands db f =
      take (if leb_ℤ f.limit (pos 0) then 100 else pos_part f.limit)
        (drop (pos_part f.offset) (sort newer (filter (build_where db f) (rows_of db.commands))))

  -- The rows that `EachCommand` passes to its function, which here never fails.
  unfoldable pub each_command : Db → Filter → List Command
  unfolding build_where filter
  each_command db f = sort older (filter (build_where db f) (rows_of db.commands))

  unfoldable pub session_context : Db → Bytes → ℤ → ℤ → List Command
  unfolding query_commands
  session_context db session until limit =
      if is_empty session
      then []
      else query_commands db
          (record no_filter { session_id = session; until = until; limit = limit })

unfoldable pub session_after : Db → Bytes → ℤ → ℤ → List Command
unfolding filter starts_before limited
session_after db session after limit =
    let rows =
      filter (λ (c : Command). bytes_eq c.session_id session && ltb_ℤ after c.start_time)
        (rows_of db.commands) in
    if is_empty session then [] else limited limit (sort starts_before rows)

unfoldable pub each_event : Db → List Event
each_event db = sort before (map (λ (r : Row). r.event) db.events)

unfoldable pub is_running : Status → Bool
is_running Status.running = true
is_running _ = false

unfoldable pub live_commands : Db → Bytes → List Command
unfolding filter is_running
live_commands db device =
    filter (λ (c : Command). is_running c.status && bytes_eq c.device_id device)
      (rows_of db.commands)

unfoldable pub command_by_id : Db → Bytes → Option Command
unfolding lookup
command_by_id db id = lookup id db.commands

unfoldable pub count_commands : Db → ℕ
count_commands db = length db.commands
