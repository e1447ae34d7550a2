-- ===== src/Redact/Load.antt =====
-- internal/redact/redact.go, `New` and `LoadRules`: the rules of a user's file. `strings.TrimSpace`,
-- `strings.ToLower` and the compiler of regular expressions are parameters; the built-in rules are
-- data for that compiler.
use shcr.Base.{
  ℕ, ◌*◌, suc, Bool, ◌||◌, Option, none, some, List, [], ◌∷◌, ◌++◌, if◌then◌else◌, ◌==◌, length,
  ◌>>=◌, ◌≡◌, sym, ap, ◌∙◌, inl, inr, Bool-cases, Option-cases,
}
use shcr.Base.Bytes.{Bytes, codes, is_empty, bytes_eq, has_prefix}
use shcr.Base.Decimal.{format_nat}
use shcr.Histfile.Scanner.{scan_within}
use shcr.Redact.{Action, Rule, Regexp}

-- `strings.Cut(text, " ")`, with `none` where there is no space.
unfoldable pub cut_space : Bytes → Option (Bytes × Bytes)
cut_space [] = none
cut_space (c ∷ s) =
    let rest = cut_space s in
    if c == b' '
    then some ([], s)
    else elim rest [ none ↦ none | some (verb, pattern) ↦ some (c ∷ verb, pattern) ]

unfoldable pub action_of : Bytes → Option Action
action_of verb =
    if bytes_eq verb (codes "redact")
    then some Action.redact
    else if bytes_eq verb (codes "skip")
    then some Action.skip
    else none

-- A line that is blank or a comment.
abbrev pub is_ignored : Bytes → Bool
is_ignored text = is_empty text || has_prefix text (codes "#")

-- `New`
abbrev pub new_rules : List Rule → List Rule → List Rule
new_rules builtin_rules extra = builtin_rules ++ extra

-- The limit of a scanner as it comes.
abbrev pub rule_line_limit : ℕ
rule_line_limit = 64 * 1024

module _ (trim_space to_lower : Bytes → Bytes) (compile : Bytes → Option Regexp) where
  -- The rule of a line with its number, or `none` for an error.
  unfoldable pub rule_of : ℕ → Bytes → Option Rule
  unfolding cut_space action_of
  rule_of line text = do
    parts ← cut_space text
    action ← action_of (to_lower parts.0)
    re ← compile (trim_space parts.1)
    some (record {
      name = codes "user:" ++ to_lower parts.0 ++ codes ":" ++ format_nat line;
      re = re;
      action = action;
      group = 0;
    })

  -- The loop, behind `line` lines.
  unfoldable pub load_lines : ℕ → List Bytes → Option (List Rule)
  unfolding rule_of
  load_lines line [] = some []
  load_lines line (raw ∷ lines) =
      let text = trim_space raw in
      let rest = load_lines (suc line) lines in
      if is_ignored text
      then rest
      else do rule ← rule_of (suc line) text; rules ← rest; some (rule ∷ rules)

  -- `LoadRules`, over what is in the file, if there is one.
  unfoldable pub load_rules : Option Bytes → Option (List Rule)
  unfolding load_lines scan_within
  load_rules none = some []
  load_rules (some content) =
      let (lines, too_long) = scan_within rule_line_limit content in
      if too_long then none else load_lines 0 lines

  -- How many lines of a file are neither blank nor comments.
  unfoldable pub count_rules : List Bytes → ℕ
  count_rules [] = 0
  count_rules (raw ∷ lines) =
      let rest = count_rules lines in if is_ignored (trim_space raw) then rest else suc rest

  -- No line is passed over in silence: where the file is accepted, there is a rule for every line
  -- that is neither blank nor a comment.
  load_lines-length :
      (line : ℕ) (lines : List Bytes) (rules : List Rule)
      → load_lines line lines ≡ some rules
      → length rules ≡ count_rules lines
  unfolding load_lines count_rules
  load_lines-length line [] rules h = cc h
  load_lines-length line (raw ∷ lines) rules h = elim (Bool-cases (is_ignored (trim_space raw))) [
    | inl ignored ↦ rw ignored (load_lines-length (suc line) lines rules (rw ignored at h))
    | inr used ↦ elim (Option-cases (rule_of (suc line) (trim_space raw))) [
      | inl bad ↦ cc (rw (used, bad, load_lines) at h)
      | inr (rule, there) ↦ elim (Option-cases (load_lines (suc line) lines)) [
        | inl bad ↦ cc (rw (used, there, bad, load_lines) at h)
        | inr (rest, loaded) ↦
            let made : some (rule ∷ rest) ≡ some rules =
              rw (used, there, loaded, load_lines) at h in
            let same : rule ∷ rest ≡ rules = cc made in
            rw used (ap length (sym same) ∙ ap suc (load_lines-length (suc line) lines rest loaded))
      ]
    ]
  ]
