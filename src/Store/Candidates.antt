-- ===== src/Store/Candidates.antt =====
-- internal/store/candidates.go and acceptance.go: what the picker reads of the commands that it may
-- show, and the log of what was taken.
use shcr.Base.{
  ℕ, ◌+◌, ◌/◌, Bool, false, not, ◌&&◌, ◌||◌, Option, none, some, List, [], ◌∷◌, ◌++◌, if◌then◌else◌,
  map, length, ◌==◌, leb, get_or,
}
use shcr.Base.Bytes.{Bytes, bytes_eq, is_empty}
use shcr.Base.Int.{ℤ, pos, ◌+ℤ◌, ltb_ℤ, eqb_ℤ}
use shcr.Base.Sort.{sort}
use shcr.Base.Table.{Table, lookup}
use shcr.Store.Types.{Command, Db}
use shcr.Store.Stats.{Cache, executions}
use shcr.Store.Queries.{filter}
use shcr.Rank.Score.{Floats}

pub record Where : Type 0 where
  pub cwd : Bytes
  pub repo : Bytes
  pub session_id : Bytes
  pub hostname : Bytes
  pub branch : Bytes

pub record CommandContext : Type 0 where
  pub same_dir : Bool
  pub same_repo : Bool
  pub same_session : Bool
  pub same_host : Bool
  pub same_branch : Bool

abbrev pub no_context : CommandContext
no_context = record {
  same_dir = false;
  same_repo = false;
  same_session = false;
  same_host = false;
  same_branch = false;
}

-- An ASCII letter in lower case: LIKE does not tell the cases apart.
abbrev fold : ℕ → ℕ
fold c = if leb b'A' c && leb c b'Z' then c + 32 else c

-- The rest of a character, in UTF-8.
unfoldable pub rest_of_char : Bytes → Bytes
rest_of_char [] = []
rest_of_char (c ∷ s) = if leb 0x80 c && leb c 0xBF then rest_of_char s else c ∷ s

-- What % stands for is any bytes.
unfoldable pub like_any : (Bytes → Bool) → Bytes → Bool
like_any rest [] = rest []
like_any rest (c ∷ s) = let more = like_any rest s in rest (c ∷ s) || more

-- `text LIKE pattern`
unfoldable pub like : Bytes → Bytes → Bool
unfolding like_any rest_of_char
like [] text = is_empty text
like (p ∷ pattern) [] = p == b'%' && like pattern []
like (p ∷ pattern) (c ∷ text) =
    let any = like_any (like pattern) (c ∷ text) in
    let one = like pattern (rest_of_char text) in
    let same = like pattern text in
    if p == b'%' then any else if p == b'_' then one else fold p == fold c && same

-- `strings.TrimSuffix(s, "/")`
unfoldable pub trim_slash : Bytes → Bytes
trim_slash [] = []
trim_slash (c ∷ []) = if c == b'/' then [] else c ∷ []
trim_slash (c ∷ d ∷ s) = c ∷ trim_slash (d ∷ s)

unfoldable pub repo_prefix : Bytes → Bytes
unfolding trim_slash
repo_prefix repo = if is_empty repo then [] else trim_slash repo ++ b'/' ∷ []

unfoldable pub any : {A : Type 0} → (A → Bool) → List A → Bool
any wanted [] = false
any wanted (x ∷ xs) = wanted x || any wanted xs

abbrev or_empty : Option Bytes → Bytes
or_empty none = []
or_empty (some s) = s

-- `? <> '' AND column = ?`
abbrev at_place : Bytes → Bytes → Bool
at_place wanted column = not (is_empty wanted) && bytes_eq column wanted

-- The row of one command of the GROUP BY.
unfoldable pub context_of : Where → List Command → CommandContext
unfolding any like repo_prefix
context_of w runs = record {
  same_dir = any (λ (c : Command). at_place w.cwd c.cwd) runs;
  same_host = any (λ (c : Command). at_place w.hostname c.hostname) runs;
  same_session = any (λ (c : Command). at_place w.session_id c.session_id) runs;
  same_branch = any (λ (c : Command). at_place w.branch (or_empty c.git_branch)) runs;
  same_repo =
      any
        (λ (c : Command).
          not (is_empty (repo_prefix w.repo))
          && like (repo_prefix w.repo ++ b'%' ∷ []) (c.cwd ++ b'/' ∷ []))
        runs;
}

-- A command without a run has no row.
unfoldable pub command_contexts : Db → List Bytes → Where → Table CommandContext
unfolding executions context_of
command_contexts db [] w = []
command_contexts db (text ∷ texts) w =
    let rest = command_contexts db texts w in
    elim (executions text db.commands) [
      | [] ↦ rest
      | c ∷ runs ↦ (text, context_of w (c ∷ runs)) ∷ rest
    ]

abbrev first_run : List Command → Option Command
first_run [] = none
first_run (c ∷ runs) = some c

module _ {W : Type 0} where
  -- The first run of the command at the time that the cache has for its last one.
  unfoldable pub latest_execution : Cache W → Db → Bytes → Option Command
  unfolding lookup executions filter
  latest_execution cache db text = elim (lookup text cache.command_stats) [
    | none ↦ none
    | some st ↦
        first_run
          (filter (λ (c : Command). eqb_ℤ c.start_time st.last_time) (executions text db.commands))
  ]

  unfoldable pub latest_executions : Cache W → Db → List Bytes → Table Command
  unfolding latest_execution
  latest_executions cache db [] = []
  latest_executions cache db (text ∷ texts) =
      let rest = latest_executions cache db texts in
      elim (latest_execution cache db text) [ none ↦ rest | some c ↦ (text, c) ∷ rest ]

-- A row of `picker_acceptances`.
pub record Acceptance : Type 0 where
  pub at : ℤ
  pub query : Bytes
  pub chosen : Bytes
  pub rank : ℤ
  pub results : ℤ
  pub place : Where

unfoldable pub record_acceptance : List Acceptance → Acceptance → List Acceptance
record_acceptance log a = log ++ a ∷ []

unfoldable pub forget_acceptances : List Acceptance → List Acceptance × ℕ
forget_acceptances log = ([], length log)

pub record RankingMetrics (F : Type 0) : Type 0 where
  pub searches : ℕ
  pub top_one : F
  pub top_three : F
  pub mrr : F
  pub median_rank : ℤ

-- WHERE query <> '' ORDER BY rank
unfoldable pub ranks : List Acceptance → List ℤ
unfolding filter
ranks log =
    sort ltb_ℤ
      (map (λ (a : Acceptance). a.rank) (filter (λ (a : Acceptance). not (is_empty a.query)) log))

module _ {F : Type 0} (floats : Floats F) (of_int : ℤ → F) where
  abbrev share : List ℤ → (ℤ → Bool) → F
  share rs wanted =
      floats.divided (floats.of_nat (length (filter wanted rs))) (floats.of_nat (length rs))

  -- The sum of the reciprocal ranks.
  unfoldable pub reciprocals : List ℤ → F → F
  reciprocals [] sum = sum
  reciprocals (r ∷ rs) sum =
      reciprocals rs (floats.plus sum (floats.divided (floats.of_nat 1) (of_int (r +ℤ pos 1))))

  unfoldable pub metrics_of : List ℤ → RankingMetrics F
  unfolding reciprocals
  metrics_of [] = record {
    searches = 0;
    top_one = floats.of_nat 0;
    top_three = floats.of_nat 0;
    mrr = floats.of_nat 0;
    median_rank = pos 0;
  }
  metrics_of (r ∷ rs) = record {
    searches = length (r ∷ rs);
    top_one = share (r ∷ rs) (λ q. eqb_ℤ q (pos 0));
    top_three = share (r ∷ rs) (λ q. ltb_ℤ q (pos 3));
    mrr = floats.divided (reciprocals (r ∷ rs) (floats.of_nat 0)) (floats.of_nat (length (r ∷ rs)));
    median_rank = get_or (r ∷ rs) (length (r ∷ rs) / 2) r +ℤ pos 1;
  }

  unfoldable pub ranking_metrics : List Acceptance → RankingMetrics F
  unfolding ranks metrics_of
  ranking_metrics log = metrics_of (ranks log)
