-- ===== src/Rank/Matching.antt =====
-- internal/rank/rank.go: how well a command answers the terms of a query. The Unicode tables and the
-- floating-point scores are parameters; a text is a list of runes.
use shcr.Base.{
  ℕ, zero, suc, ◌+◌, ◌-◌, Bool, true, false, not, ◌&&◌, ◌||◌, Option, none, some, List, [], ◌∷◌,
  ◌++◌, map, if◌then◌else◌, ◌==◌, ltb, length, take, replicate,
}
use shcr.Base.Bytes.{has_prefix}
use shcr.Rank.Outcome.{Tier, fuzzy, substring, prefix, tier_rank}

pub record Letters : Type 0 where
  pub to_lower : ℕ → ℕ
  pub is_upper : ℕ → Bool
  pub is_lower : ℕ → Bool

-- The scores: `tokenScore` of a match at some positions, the sum, and the mean of so many.
pub record Scores (F : Type 0) : Type 0 where
  pub token_score : List ℕ → List Bool → List ℕ → F
  pub no_score : F
  pub full_score : F
  pub plus : F → F → F
  pub mean : F → ℕ → F

unfoldable pub is_separator : ℕ → Bool
is_separator r =
    r == b' '
    || r == 9
    || r == 10
    || r == b'-'
    || r == b'_'
    || r == b'/'
    || r == b'.'
    || r == b':'
    || r == b'='
    || r == b','
    || r == b'|'
    || r == b'&'
    || r == b';'
    || r == 39
    || r == 34

-- The rune that follows, if it is a lower-case letter.
unfoldable pub lower_follows : Letters → List ℕ → Bool
lower_follows letters [] = false
lower_follows letters (r ∷ text) = letters.is_lower r

unfoldable pub word_start : Letters → ℕ → ℕ → List ℕ → Bool
unfolding is_separator lower_follows
word_start letters previous r behind =
    if is_separator previous
    then not (is_separator r)
    else if letters.is_upper r
    then not (letters.is_upper previous) || lower_follows letters behind
    else false

unfoldable pub starts_behind : Letters → ℕ → List ℕ → List Bool
unfolding word_start
starts_behind letters previous [] = []
starts_behind letters previous (r ∷ text) =
    word_start letters previous r text ∷ starts_behind letters r text

unfoldable pub word_starts : Letters → List ℕ → List Bool
unfolding starts_behind
word_starts letters [] = []
word_starts letters (r ∷ text) = true ∷ starts_behind letters r text

unfoldable pub contiguous : ℕ → ℕ → List ℕ
contiguous start zero = []
contiguous start (suc n) = start ∷ contiguous (start + 1) n

-- The first place from `i` on where the token stands and a word starts.
unfoldable pub prefix_place : ℕ → List ℕ → List Bool → List ℕ → Option ℕ
prefix_place i [] starts tok = none
prefix_place i (r ∷ text) [] tok = none
prefix_place i (r ∷ text) (start ∷ starts) tok =
    if start && has_prefix (r ∷ text) tok then some i else prefix_place (i + 1) text starts tok

-- The first place from `i` on where the token stands.
unfoldable pub verbatim_place : ℕ → List ℕ → List ℕ → Option ℕ
verbatim_place i [] tok = none
verbatim_place i (r ∷ text) tok =
    if has_prefix (r ∷ text) tok then some i else verbatim_place (i + 1) text tok

-- The forward scan of `subsequence`: where the last rune of the token falls.
unfoldable pub scan_forward : ℕ → List ℕ → List ℕ → Option ℕ
scan_forward i [] tok = none
scan_forward i (r ∷ text) [] = none
scan_forward i (r ∷ text) (t ∷ []) = if r == t then some i else scan_forward (i + 1) text (t ∷ [])
scan_forward i (r ∷ text) (t ∷ u ∷ tok) =
    scan_forward (i + 1) text (if r == t then u ∷ tok else t ∷ u ∷ tok)

unfoldable pub reverse_onto : List ℕ → List ℕ → List ℕ
reverse_onto out [] = out
reverse_onto out (r ∷ text) = reverse_onto (r ∷ out) text

-- The backward scan, on the runes up to `i` and the token both from their ends. A place that is not
-- filled stays 0.
unfoldable pub scan_backward : ℕ → List ℕ → List ℕ → List ℕ → List ℕ
scan_backward i [] tok found = replicate (length tok) 0 ++ found
scan_backward i (r ∷ text) [] found = found
scan_backward i (r ∷ text) (t ∷ tok) found =
    if r == t
    then scan_backward (i - 1) text tok (i ∷ found)
    else scan_backward (i - 1) text (t ∷ tok) found

unfoldable pub subsequence : List ℕ → List ℕ → Option (List ℕ)
unfolding scan_forward scan_backward reverse_onto
subsequence text tok = elim (scan_forward 0 text tok) [
  | none ↦ none
  | some end ↦
      some (scan_backward end (reverse_onto [] (take (end + 1) text)) (reverse_onto [] tok) [])
]

-- `matchToken`, with the positions that are scored.
unfoldable pub match_token : List ℕ → List Bool → List ℕ → Option (Tier × List ℕ)
unfolding prefix_place verbatim_place subsequence contiguous
match_token text starts [] = none
match_token text starts (t ∷ tok) = elim (prefix_place 0 text starts (t ∷ tok)) [
  | some i ↦ some (prefix, contiguous i (length (t ∷ tok)))
  | none ↦ elim (verbatim_place 0 text (t ∷ tok)) [
    | some i ↦ some (substring, contiguous i (length (t ∷ tok)))
    | none ↦ elim (subsequence text (t ∷ tok)) [ some places ↦ some (fuzzy, places) | none ↦ none ]
  ]
]

module _ {F : Type 0} (letters : Letters) (scores : Scores F) where
  -- The loop of `MatchCommand`.
  unfoldable pub match_tokens : List ℕ → List Bool → List (List ℕ) → Tier → F → Option (Tier × F)
  unfolding match_token tier_rank
  match_tokens text starts [] worst total = some (worst, total)
  match_tokens text starts (tok ∷ toks) worst total = elim (match_token text starts tok) [
    | none ↦ none
    | some (tier, places) ↦
        match_tokens text starts toks
          (if ltb (tier_rank tier) (tier_rank worst) then tier else worst)
          (scores.plus total (scores.token_score text starts places))
  ]

  unfoldable pub match_command : List ℕ → List (List ℕ) → Option (Tier × F)
  unfolding match_tokens word_starts
  match_command command [] = some (prefix, scores.full_score)
  match_command command (tok ∷ toks) =
      elim (match_tokens (map letters.to_lower command) (word_starts letters command) (tok ∷ toks)
        prefix scores.no_score) [
          | none ↦ none
          | some (worst, total) ↦ some (worst, scores.mean total (length (tok ∷ toks)))
        ]
