-- ===== src/Tests/Histfile.antt =====
-- History files as the shells write them.
use shcr.Base.{ℕ, true, some, List, [], ◌∷◌, ◌≡◌, refl, arith, ◌==◌}
use shcr.Base.Bytes.{Bytes, codes}
use shcr.Base.Int.{ℤ, pos, quot_ℕ, wrap64, ◌-ℤ◌, ◌+ℤ◌, ◌*ℤ◌}
use shcr.Histfile.Entries.{Entry, zsh_meta, unmetafy, unescape_fish}
use shcr.Histfile.Escapes.{metafy, escape_fish, unmetafy-metafy, unescape_fish-escape}
use shcr.Histfile.Undated.{
  run_window, date_run, undated_run, last_time, approximate_from, approximate_undated, sub_time,
  unix_milli, from_milli,
}
use shcr.Histfile.Parse.{parse, undated, Kind}
use shcr.Histfile.Window.{Rising, run_rises}
use shcr.Histfile.Kept.{AllKept, approximate_undated-AllKept}

abbrev dated : Bytes → ℕ → Entry
dated text at = record (undated text) { start_time = pos at }

abbrev guessed : Bytes → ℕ → Entry
guessed text at = record (undated text) { start_time = pos at; approximate = true }

parse-zsh : parse (codes ": 100:2;make\\\ntest\n\nls\n") (pos 200_000_000_000) ≡ (
  Kind.zsh,
  record (dated (codes "make\ntest") 100_000) { duration_ms = pos 2000 }
      ∷ guessed (codes "ls") 199_000
      ∷ [],
)
unfolding parse approximate_undated approximate_from undated_run run_window date_run last_time
    sub_time unix_milli quot_ℕ wrap64 ◌-ℤ◌ ◌+ℤ◌ ◌*ℤ◌
parse-zsh = refl

parse-bash :
    parse (codes "cd\n#100\nls\n") (pos 200_000_000_000)
    ≡ (Kind.bash, guessed (codes "cd") 99_000 ∷ dated (codes "ls") 100_000 ∷ [])
unfolding parse approximate_undated approximate_from undated_run run_window date_run last_time
    sub_time unix_milli quot_ℕ wrap64 ◌-ℤ◌ ◌+ℤ◌ ◌*ℤ◌
parse-bash = refl

parse-fish :
    parse (codes "- cmd: echo a\\\\nb\n  when: 7\n- cmd: ls\n") (pos 0)
    ≡ (Kind.fish, dated (codes "echo a\\nb") 7000 ∷ undated (codes "ls") ∷ [])
unfolding parse approximate_undated approximate_from undated_run run_window date_run last_time
    sub_time unix_milli quot_ℕ wrap64 ◌-ℤ◌ ◌+ℤ◌ ◌*ℤ◌
parse-fish = refl

unmetafy-metafy_example :
    unmetafy (metafy (λ c. c == zsh_meta) (1 ∷ zsh_meta ∷ 0x94 ∷ [])) ≡ 1 ∷ zsh_meta ∷ 0x94 ∷ []
unmetafy-metafy_example =
    unmetafy-metafy (λ c. c == zsh_meta) (1 ∷ zsh_meta ∷ 0x94 ∷ []) refl (omega arith)

unescape_fish-escape_example : unescape_fish (escape_fish (codes "\\n\n\\")) ≡ codes "\\n\n\\"
unescape_fish-escape_example = unescape_fish-escape (codes "\\n\n\\")

abbrev run : List Entry
run = undated (codes "a") ∷ undated (codes "b") ∷ []

run_rises_example :
    (low : ℤ) × (step : ℤ) × (run_window (some (pos 999)) (from_milli (pos 1000)) 2 ≡ (low, step))
    × Rising (unix_milli low) (pos 1000) (date_run low step 0 run)
run_rises_example =
    run_rises (some (pos 999)) (pos 1000) run (omega arith) (omega arith) (omega arith)

approximate_undated-AllKept_example : AllKept run (approximate_undated run (pos 5_000_000_000))
approximate_undated-AllKept_example = approximate_undated-AllKept run (pos 5_000_000_000)
