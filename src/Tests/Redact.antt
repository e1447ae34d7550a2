-- ===== src/Tests/Redact.antt =====
-- A rule for the values of `t=`, and one that skips.
use shcr.Base.{
  ℕ, zero, suc, List, [], ◌∷◌, ◌≡◌, refl, inl, inr, if◌then◌else◌, get_elem?, All, arith,
}
use shcr.Base.Bytes.{codes, has_prefix}
use shcr.Base.Int.{ℤ, pos}
use shcr.Redact.{
  Action, Rule, secret_span, label_span, value_group, replace_loop, replace_group, skip_rule,
  redact_loop, outcome, apply,
}
use shcr.Redact.Secrecy.{IsSecret, replace_group_secrecy}
use shcr.Redact.Actions.{skip_wins, apply_nothing, Silent}

abbrev pub spans : List (List ℤ)
spans = (pos 0 ∷ pos 4 ∷ pos 0 ∷ pos 2 ∷ pos 2 ∷ pos 4 ∷ []) ∷ []

abbrev pub two_letters : Rule
two_letters = record {
  name = codes "two";
  re = record {
    find_all = λ s. if has_prefix s (codes "t=") then spans else [];
    match_string = λ s. has_prefix s (codes "t=");
  };
  action = Action.redact;
  group = 0;
}

abbrev keys : Rule
keys = record two_letters { name = codes "keys"; action = Action.skip }

redacted_text :
    apply (two_letters ∷ []) (codes "t=ab --")
    ≡ (codes "t=[REDACTED] --", Action.redact, codes "two" ∷ [])
unfolding apply skip_rule redact_loop outcome replace_group replace_loop secret_span label_span
    value_group has_prefix
redacted_text = refl

same_outside :
    (i : ℕ)
    → ¬ IsSecret two_letters i spans
    → get_elem? (codes "t=ab x") i ≡ get_elem? (codes "t=cd x") i
unfolding secret_span label_span value_group
same_outside zero h = refl
same_outside (suc zero) h = refl
same_outside (suc (suc zero)) h = absurd (h (inl (refl, omega arith, omega arith)))
same_outside (suc (suc (suc zero))) h = absurd (h (inl (refl, omega arith, omega arith)))
same_outside (suc (suc (suc (suc i)))) h = refl

replace_group_secrecy_example :
    replace_group two_letters (codes "t=ab x") ≡ replace_group two_letters (codes "t=cd x")
unfolding has_prefix secret_span label_span value_group
replace_group_secrecy_example =
    replace_group_secrecy two_letters (codes "t=ab x") (codes "t=cd x") spans refl refl
      (omega arith, omega arith, tt) same_outside

skip_wins_example :
    ((apply (two_letters ∷ keys ∷ []) (codes "t=ab")).0 ≡ [])
    × ((apply (two_letters ∷ keys ∷ []) (codes "t=ab")).1 ≡ Action.skip)
unfolding has_prefix
skip_wins_example =
    skip_wins (two_letters ∷ keys ∷ []) keys (codes "t=ab") (inr (inl refl)) refl refl

apply_nothing_example :
    ((apply (two_letters ∷ []) (codes "ls")).0 ≡ codes "ls")
    × All (Silent (codes "ls")) (two_letters ∷ [])
unfolding apply skip_rule redact_loop outcome replace_group replace_loop has_prefix
apply_nothing_example = apply_nothing (two_letters ∷ []) (codes "ls") refl
