-- ===== src/Redact.antt =====
-- internal/redact/redact.go: rules that strip credentials out of command text. A regular expression
-- is what its two methods return, so that the rules are any list of such.
pub mod Secrecy
pub mod Actions
pub mod Load
use shcr.Base.{
  ℕ, suc, zero, ◌+◌, ◌-◌, ◌*◌, Bool, true, false, ◌&&◌, ◌||◌, Option, none, some, List, [], ◌∷◌,
  ◌++◌, if◌then◌else◌, ◌==◌, ltb, leb, length, get_or, take, drop,
}
use shcr.Base.Bytes.{Bytes, codes}
use shcr.Base.Int.{ℤ, pos, negsuc, pos_part, neg_part, ltb_ℤ, leb_ℤ}

pub data Action : Type 0 where
  nothing redact skip : Action

abbrev pub placeholder : Bytes
placeholder = codes "[REDACTED]"

-- `FindAllStringSubmatchIndex(s, -1)`: for each match the pairs of indices of its groups, the whole
-- match first, with -1 for a group that took no part; and `MatchString`.
pub record Regexp : Type 0 where
  pub find_all : Bytes → List (List ℤ)
  pub match_string : Bytes → Bool

pub record Rule : Type 0 where
  pub name : Bytes
  pub re : Regexp
  pub action : Action
  pub group : ℕ

abbrev pub at : List ℤ → ℕ → ℤ
at m i = get_or m i (negsuc 0)

-- The loop over the value groups, for the groups from `g` on; `rounds` bounds them.
unfoldable pub value_group : ℕ → ℕ → List ℤ → Option (ℤ × ℤ)
value_group zero g m = none
value_group (suc rounds) g m =
    let next = value_group rounds (g + 1) m in
    if ltb (2 * g + 1) (length m)
    then (if leb_ℤ (pos 0) (at m (2 * g)) then some (at m (2 * g), at m (2 * g + 1)) else next)
    else none

-- `secretSpan` for Group 0. The number of indices bounds the rounds of the loop.
unfoldable pub label_span : List ℤ → ℤ × ℤ
unfolding value_group
label_span m =
    if leb 4 (length m) && leb_ℤ (pos 0) (at m 2)
    then elim (value_group (length m) 2 m) [
      | some span ↦ span
      | none ↦ if ltb_ℤ (at m 3) (at m 1) then (at m 3, at m 1) else (at m 0, at m 1)
    ]
    else (at m 0, at m 1)

unfoldable pub secret_span : Rule → List ℤ → ℤ × ℤ
unfolding label_span
secret_span rule m =
    if ltb 0 rule.group
    then (if ltb (2 * rule.group + 1) (length m)
        then (at m (2 * rule.group), at m (2 * rule.group + 1))
        else (negsuc 0, negsuc 0))
    else label_span m

-- `s[a:b]`
abbrev pub slice : Bytes → ℕ → ℕ → Bytes
slice s a b = take (b - a) (drop a s)

-- A span that is not there.
abbrev pub is_absent : ℤ → ℤ → Bool
is_absent start end = ltb_ℤ start (pos 0) || ltb_ℤ end (pos 0)

-- The loop of `replaceGroup` behind `last`: what is written, and how often.
unfoldable pub replace_loop : Rule → Bytes → ℕ → List (List ℤ) → Bytes × ℕ
unfolding secret_span
replace_loop rule s last [] = (drop last s, 0)
replace_loop rule s last (m ∷ ms) =
    let (start, end) = secret_span rule m in
    let passed = replace_loop rule s last ms in
    let (text, count) = replace_loop rule s (pos_part end) ms in
    let replaced : Bytes × ℕ =
      (slice s last (pos_part start) ++ (placeholder ++ text), count + 1) in
    if is_absent start end || ltb_ℤ start (pos last) then passed else replaced

unfoldable pub replace_group : Rule → Bytes → Bytes × ℕ
unfolding replace_loop
replace_group rule s =
    let (text, count) = replace_loop rule s 0 (rule.re.find_all s) in
    if count == 0 then (s, 0) else (text, count)

is_action : Action → Action → Bool
is_action Action.nothing Action.nothing = true
is_action Action.redact Action.redact = true
is_action Action.skip Action.skip = true
is_action _ _ = false

-- The first loop of `Apply`: the name of the first skip rule that matches.
unfoldable pub skip_rule : List Rule → Bytes → Option Bytes
unfolding is_action
skip_rule [] command = none
skip_rule (rule ∷ rules) command =
    if is_action rule.action Action.skip && rule.re.match_string command
    then some rule.name
    else skip_rule rules command

-- The second loop of `Apply`.
unfoldable pub redact_loop : List Rule → Bytes → List Bytes → Bytes × List Bytes
unfolding is_action replace_group
redact_loop [] out fired = (out, fired)
redact_loop (rule ∷ rules) out fired =
    let (replaced, n) = replace_group rule out in
    let fires = is_action rule.action Action.redact && ltb 0 n in
    redact_loop rules (if fires then replaced else out)
      (if fires then fired ++ rule.name ∷ [] else fired)

-- The return behind the loops.
unfoldable pub outcome : Bytes → Bytes → List Bytes → Bytes × Action × List Bytes
outcome command out [] = (command, Action.nothing, [])
outcome command out (name ∷ names) = (out, Action.redact, name ∷ names)

unfoldable pub apply : List Rule → Bytes → Bytes × Action × List Bytes
unfolding skip_rule redact_loop outcome
apply rules command = elim (skip_rule rules command) [
  | some name ↦ ([], Action.skip, name ∷ [])
  | none ↦ let (out, fired) = redact_loop rules command [] in outcome command out fired
]
