-- ===== src/Redact/Actions.antt =====
-- What the verdict of `Apply` says of the command.
use shcr.Base.{
  true, ◌&&◌, some, List, [], ◌∷◌, ◌++◌, ltb, ◌≡◌, refl, sym, ap, ◌∙◌, inl, inr, arith, Bool-cases,
  Option-cases, In, All, false≢true,
}
use shcr.Base.Bytes.{Bytes}
use shcr.Redact.{Action, Rule, replace_group, is_action, skip_rule, redact_loop, outcome, apply}

skips :
    (rules : List Rule) (rule : Rule) (command : Bytes)
    → In rule rules
    → rule.action ≡ Action.skip
    → rule.re.match_string command ≡ true
    → (name : Bytes) × (skip_rule rules command ≡ some name)
unfolding skip_rule is_action
skips [] rule command h a b = absurd h
skips (r ∷ rules) rule command h a b =
    elim (Bool-cases (is_action r.action Action.skip && r.re.match_string command)) [
      | inl t ↦ (r.name, rw t refl)
      | inr f ↦ elim h [
        | inl e ↦
            let skip_action : r.action ≡ Action.skip = ap (λ q. q.action) (sym e) ∙ a in
            let matches : r.re.match_string command ≡ true =
              ap (λ q. q.re.match_string command) (sym e) ∙ b in
            absurd (false≢true (sym f ∙ rw (skip_action, matches) refl))
        | inr q ↦ let (name, e) = skips rules rule command q a b in (name, ground (arith, e))
      ]
    ]

-- A skip rule that matches decides, whatever other rules there are: no text is left to record.
pub skip_wins :
    (rules : List Rule) (rule : Rule) (command : Bytes)
    → In rule rules
    → rule.action ≡ Action.skip
    → rule.re.match_string command ≡ true
    → ((apply rules command).0 ≡ []) × ((apply rules command).1 ≡ Action.skip)
unfolding apply
skip_wins rules rule command h a b =
    let (name, e) = skips rules rule command h a b in rw (e, apply) (refl, refl)

-- The rule finds nothing to replace in the text.
abbrev pub Silent : Bytes → Rule → Type 0
Silent command rule = rule.action ≡ Action.redact → (replace_group rule command).1 ≡ 0

redact≢nothing : Action.redact ≡ Action.nothing → ⊥
redact≢nothing h = cc h

skip≢nothing : Action.skip ≡ Action.nothing → ⊥
skip≢nothing h = cc h

snoc≢nil : (xs : List Bytes) (x : Bytes) → xs ++ x ∷ [] ≡ [] → ⊥
snoc≢nil [] x h = cc h
snoc≢nil (y ∷ xs) x h = cc h

redact_loop-Silent :
    (rules : List Rule) (out : Bytes) (fired : List Bytes)
    → (redact_loop rules out fired).1 ≡ []
    → (fired ≡ []) × ((redact_loop rules out fired).0 ≡ out) × All (Silent out) rules
unfolding redact_loop is_action
redact_loop-Silent [] out fired h = (h, refl, tt)
redact_loop-Silent (rule ∷ rules) out fired h =
    let n = (replace_group rule out).1 in
    elim (Bool-cases (is_action rule.action Action.redact && ltb 0 n)) [
      | inl fires ↦
          let h' : (redact_loop rules (replace_group rule out).0 (fired ++ rule.name ∷ [])).1 ≡ [] =
            rw (fires, redact_loop) at h in
          absurd (
            snoc≢nil fired rule.name
              (redact_loop-Silent rules (replace_group rule out).0 (fired ++ rule.name ∷ []) h').0)
      | inr quiet ↦
          let h' : (redact_loop rules out fired).1 ≡ [] = rw (quiet, redact_loop) at h in
          let (no_fired, kept, silent) = redact_loop-Silent rules out fired h' in
          (no_fired, rw (quiet, redact_loop) kept, ((λ e. ground (arith, quiet, e)), silent))
    ]

outcome-nothing :
    (command out : Bytes) (fired : List Bytes)
    → (outcome command out fired).1 ≡ Action.nothing
    → (fired ≡ []) × ((outcome command out fired).0 ≡ command)
unfolding outcome
outcome-nothing command out [] h = (refl, refl)
outcome-nothing command out (name ∷ names) h = absurd (redact≢nothing h)

-- A command that no rule is reported for is recorded as it was typed, and no redact rule finds a
-- span to replace in it.
pub apply_nothing :
    (rules : List Rule) (command : Bytes)
    → (apply rules command).1 ≡ Action.nothing
    → ((apply rules command).0 ≡ command) × All (Silent command) rules
unfolding apply
apply_nothing rules command h = elim (Option-cases (skip_rule rules command)) [
  | inr (name, e) ↦ absurd (skip≢nothing (rw (e, apply) at h))
  | inl e ↦
      let h' : (outcome command (redact_loop rules command []).0 (redact_loop rules command []).1).1
          ≡ Action.nothing =
        rw (e, apply) at h in
      let (no_fired, kept) =
        outcome-nothing command (redact_loop rules command []).0 (redact_loop rules command []).1
          h' in
      let (_, same, silent) = redact_loop-Silent rules command [] no_fired in
      (rw (e, apply) kept, silent)
]
