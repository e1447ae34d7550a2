-- ===== src/Tests/Load.antt =====
-- A file of rules.
use shcr.Base.{false, Option, none, some, [], ◌∷◌, if◌then◌else◌, ◌≡◌, refl}
use shcr.Base.Bytes.{Bytes, codes, bytes_eq, has_prefix}
use shcr.Base.Decimal.{format_nat, digits}
use shcr.Histfile.Scanner.{scan_within, scanned_within, drop_cr}
use shcr.Histfile.Text.{split_lines}
use shcr.Redact.{Action, Regexp}
use shcr.Redact.Load.{cut_space, action_of, rule_of, load_lines, load_rules}

abbrev never : Regexp
never = record { find_all = λ s. []; match_string = λ s. false }

abbrev compile : Bytes → Option Regexp
compile pattern = if bytes_eq pattern (codes "(") then none else some never

loaded :
    load_rules (λ s. s) (λ s. s) compile (some (codes "# mine\nskip a b\n\nredact x\n"))
    ≡ some (
        record { name = codes "user:skip:2"; re = never; action = Action.skip; group = 0 }
        ∷ record { name = codes "user:redact:4"; re = never; action = Action.redact; group = 0 }
        ∷ [])
unfolding load_rules load_lines rule_of cut_space action_of scan_within scanned_within drop_cr
    split_lines bytes_eq has_prefix format_nat digits
loaded = refl

refused :
    (load_rules (λ s. s) (λ s. s) compile (some (codes "skip (\n")) ≡ none)
    × (load_rules (λ s. s) (λ s. s) compile (some (codes "drop x\n")) ≡ none)
    × (load_rules (λ s. s) (λ s. s) compile none ≡ some [])
unfolding load_rules load_lines rule_of cut_space action_of scan_within scanned_within drop_cr
    split_lines bytes_eq has_prefix format_nat digits
refused = (refl, refl, refl)
