-- ===== src/Tui.antt =====
-- internal/tui/ranking.go: the rows that the picker shows for a query. The decoding of UTF-8 into
-- runes is a parameter, as are the Unicode tables and the floating-point operations.
pub mod Possible
pub mod Tiers
use shcr.Base.{
  ℕ, ◌+◌, Bool, true, false, not, ◌&&◌, ◌||◌, Option, none, some, List, [], ◌∷◌, if◌then◌else◌,
  ◌==◌, ◌*◌, ltb, map, take,
}
use shcr.Base.Bytes.{Bytes, codes, bytes_eq, is_empty}
use shcr.Base.Int.{ℤ, pos, ◌-ℤ◌, ltb_ℤ, leb_ℤ, wrap64}
use shcr.Base.Sort.{sort}
use shcr.Base.Table.{Table, lookup}
use shcr.Rank.Outcome.{Tier, less}
use shcr.Rank.Frecency.{Weights, value}
use shcr.Rank.Matching.{Letters, match_command}
use shcr.Rank.Score.{Floats, Context, tokens, scores_of, score}
use shcr.Store.Types.{Command, Db}
use shcr.Store.Stats.{CommandStat, Cache}
use shcr.Store.Queries.{status_name}
use shcr.Store.Candidates.{Where, CommandContext, no_context, command_contexts, latest_executions}

abbrev pub refine_candidates : ℕ
refine_candidates = 200

-- What the ranking takes from elsewhere: the tables, the floats and their comparisons.
pub record Ranking (F : Type 0) : Type 0 where
  pub letters : Letters
  pub is_space : ℕ → Bool
  pub runes : Bytes → List ℕ
  pub floats : Floats F
  pub weights : Weights F
  pub score_gt : F → F → Bool
  pub score_eq : F → F → Bool

unfoldable pub status_possible : {W : Type 0} → CommandStat W → Bytes → Bool
status_possible st status =
    if is_empty status
    then true
    else if bytes_eq status (codes "running") || bytes_eq status (codes "orphaned")
    then ltb 0 st.unfinished
    else if bytes_eq status (codes "failed")
    then ltb 0 st.failures || ltb 0 st.never_ran
    else if bytes_eq status (codes "completed")
    then ltb 0 st.succeeded || ltb 0 st.imported_runs
    else true

unfoldable pub status_matches : Command → Bytes → Bool
status_matches c status = is_empty status || bytes_eq (status_name c.status) status

pub record Candidate (F : Type 0) : Type 0 where
  pub stat : CommandStat F
  pub tier : Tier
  pub match_score : F
  pub score : F

-- `rank.DebugWindow.Milliseconds()`
abbrev debug_window : ℤ
debug_window = pos (15 * 60 * 1000)

abbrev context_or_none : Option CommandContext → CommandContext
context_or_none none = no_context
context_or_none (some c) = c

module _ {F : Type 0} (ranking : Ranking F) where
  unfoldable pub context_for : CommandStat F → CommandContext → ℤ → Context F
  context_for st w now =
      let finished = st.succeeded + st.failures + st.never_ran in
      let floats = ranking.floats in
      record {
        same_dir = w.same_dir;
        same_repo = w.same_repo;
        same_session = w.same_session;
        same_host = w.same_host;
        same_branch = w.same_branch;
        all_imported = ltb 0 st.runs && st.imported_runs == st.runs;
        failure_rate =
            if ltb 0 finished
            then floats.divided (floats.of_nat st.failures) (floats.of_nat finished)
            else floats.hundredths 0;
        never_ran = ltb 0 st.never_ran && st.succeeded == 0 && st.failures == 0;
        debugging =
            ltb_ℤ (pos 0) st.last_failed_at
            && leb_ℤ (wrap64 (now -ℤ st.last_failed_at)) debug_window;
      }

  abbrev plain : Context F
  plain = record {
    same_dir = false;
    same_repo = false;
    same_session = false;
    same_host = false;
    same_branch = false;
    failure_rate = ranking.floats.hundredths 0;
    never_ran = false;
    debugging = false;
    all_imported = false;
  }

  unfoldable pub scored : CommandStat F → Tier → F → Context F → ℤ → Candidate F
  unfolding score value
  scored st tier m context now = record {
    stat = st;
    tier = tier;
    match_score = m;
    score = score ranking.floats tier m (value ranking.weights st.frecency now) context;
  }

  -- Phase one: the commands that match, with their scores without a context.
  unfoldable pub shortlist : List (CommandStat F) → List (List ℕ) → Bytes → ℤ → List (Candidate F)
  unfolding status_possible match_command scores_of scored
  shortlist [] terms status now = []
  shortlist (st ∷ stats) terms status now =
      let rest = shortlist stats terms status now in
      if status_possible st status
      then elim (match_command ranking.letters (scores_of ranking.floats) (ranking.runes st.command)
          terms) [ none ↦ rest | some (tier, m) ↦ scored st tier m plain now ∷ rest ]
      else rest

  abbrev pub comes_first : Candidate F → Candidate F → Bool
  comes_first a b =
      less ranking.score_gt ranking.score_eq a.tier a.score a.stat.last_time b.tier b.score
        b.stat.last_time

  unfoldable pub sort_scored : List (Candidate F) → List (Candidate F)
  unfolding less
  sort_scored = sort comes_first

  -- Phase two: the same candidate, with the context it has been run in.
  unfoldable pub refined : Table CommandContext → ℤ → Candidate F → Candidate F
  unfolding context_for scored lookup
  refined contexts now a =
      scored a.stat a.tier a.match_score
        (context_for a.stat (context_or_none (lookup a.stat.command contexts)) now) now

  -- The rows of the named commands that have the status.
  unfoldable pub shown : Table Command → Bytes → List Bytes → List Command
  unfolding lookup status_matches
  shown rows status [] = []
  shown rows status (name ∷ names) =
      let rest = shown rows status names in
      elim (lookup name rows) [
        | none ↦ rest
        | some c ↦ if status_matches c status then c ∷ rest else rest
      ]

  -- The names for a query without a term: the first 200 that may have the status.
  unfoldable pub recent_names : List (CommandStat F) → Bytes → List Bytes
  unfolding status_possible
  recent_names [] status = []
  recent_names (st ∷ stats) status =
      let rest = recent_names stats status in
      if status_possible st status then st.command ∷ rest else rest

  abbrev names_of : List (Candidate F) → List Bytes
  names_of list = map (λ (a : Candidate F). a.stat.command) list

  unfoldable pub ranked_candidates :
      Db → List (CommandStat F) → Where → List (List ℕ) → Bytes → ℤ → List (Candidate F)
  unfolding shortlist sort_scored refined command_contexts
  ranked_candidates db stats place terms status now =
      let short = take refine_candidates (sort_scored (shortlist stats terms status now)) in
      let contexts = command_contexts db (names_of short) place in
      sort_scored (map (refined contexts now) short)

  abbrev has_no_term : List (List ℕ) → Bool
  has_no_term [] = true
  has_no_term (t ∷ ts) = false

  unfoldable pub ranked_results :
      Cache F → Db → List (CommandStat F) → Where → Bytes → Bytes → ℤ → List Command
  unfolding tokens recent_names ranked_candidates latest_executions shown
  ranked_results cache db stats place query status now =
      let terms = tokens ranking.letters ranking.is_space (ranking.runes query) in
      let recent = take refine_candidates (recent_names stats status) in
      let names = names_of (ranked_candidates db stats place terms status now) in
      if has_no_term terms
      then shown (latest_executions cache db recent) status recent
      else shown (latest_executions cache db names) status names
