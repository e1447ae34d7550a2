-- ===== src/Histfile/Parse.antt =====
-- The three parsers, and `Parse`, which chooses one of them by the contents. The loops over the
-- lines have the number of lines for fuel; each round takes at least one.
use mathlib.Core.Option
use shcr.Base.{
  ◌^◌, leb, ℕ, zero, suc, ◌*◌, Bool, true, false, not, ◌&&◌, ◌||◌, Option, none, some, List, [],
  ◌∷◌, if◌then◌else◌, ◌==◌, ltb, length, drop,
}
use shcr.Base.Bytes.{Bytes, codes, has_prefix, is_empty}
use shcr.Base.Int.{ℤ, pos, sub_ℕ, ◌*ℤ◌, wrap64}
use shcr.Histfile.Scanner.{scan_within}
use shcr.Histfile.Text.{
  trim_left, is_blank, digits_only, all_digits, decimal, parse_digits, split_lines,
}
use shcr.Histfile.Entries.{Entry, zsh_entry, unmetafy, join_continued, unescape_fish}
use shcr.Histfile.Undated.{approximate_undated}

abbrev pub undated : Bytes → Entry
undated text = record {
  command = text;
  start_time = pos 0;
  approximate = false;
  duration_ms = pos 0;
}

abbrev pub thousand : ℕ → ℤ
thousand n = wrap64 (pos (n * 1000))

-- The command of a zsh line, with its times.
unfoldable pub zsh_line : Bytes → Bytes × ℕ × ℕ
unfolding zsh_entry parse_digits
zsh_line line = elim (zsh_entry line) [
  | some (started, elapsed, cmd) ↦ (cmd, (parse_digits started).0, (parse_digits elapsed).0)
  | none ↦ (line, 0, 0)
]

abbrev zsh_dated : Bytes → ℕ → ℕ → Entry
zsh_dated text started elapsed =
    if ltb 0 started
    then record (undated text) { start_time = thousand started; duration_ms = thousand elapsed }
    else undated text

unfoldable pub zsh_loop : ℕ → List Bytes → List Entry
unfolding is_blank zsh_line join_continued unmetafy wrap64
zsh_loop zero lines = []
zsh_loop (suc fuel) [] = []
zsh_loop (suc fuel) (line ∷ lines) =
    let (first, started, elapsed) = zsh_line line in
    let (cmd, after) = join_continued first lines in
    let text = unmetafy cmd in
    let skipped = zsh_loop fuel lines in
    let dropped = zsh_loop fuel after in
    let kept = zsh_dated text started elapsed ∷ zsh_loop fuel after in
    if is_blank line then skipped else if is_blank text then dropped else kept

unfoldable pub parse_zsh : Bytes → ℤ → List Entry
unfolding zsh_loop split_lines approximate_undated
parse_zsh raw mod_time =
    let lines = split_lines raw in approximate_undated (zsh_loop (length lines) lines) mod_time

-- A line `#<epoch>`.
unfoldable pub is_stamp : Bytes → Bool
unfolding all_digits
is_stamp [] = false
is_stamp (c ∷ s) = c == b'#' && all_digits s

-- The time of a stamp, unless it is out of range: then `pending` stays.
unfoldable pub stamped : ℕ → Bytes → ℕ
unfolding parse_digits
stamped pending line = let (ts, fits) = parse_digits (drop 1 line) in if fits then ts else pending

abbrev bash_dated : ℕ → Bytes → Entry
bash_dated pending cmd =
    if ltb 0 pending then record (undated cmd) { start_time = thousand pending } else undated cmd

unfoldable pub bash_loop : ℕ → ℕ → List Bytes → List Entry
unfolding is_blank is_stamp stamped join_continued wrap64
bash_loop zero pending lines = []
bash_loop (suc fuel) pending [] = []
bash_loop (suc fuel) pending (line ∷ lines) =
    let (cmd, after) = join_continued line lines in
    let skipped = bash_loop fuel pending lines in
    let noted = bash_loop fuel (stamped pending line) lines in
    let dropped = bash_loop fuel pending after in
    let kept = bash_dated pending cmd ∷ bash_loop fuel 0 after in
    if is_blank line
    then skipped
    else if is_stamp line
    then noted
    else if is_blank cmd
    then dropped
    else kept

unfoldable pub parse_bash : Bytes → ℤ → List Entry
unfolding bash_loop split_lines approximate_undated
parse_bash raw mod_time =
    let lines = split_lines raw in approximate_undated (bash_loop (length lines) 0 lines) mod_time

-- The limits of the scanners in `parseFish` and in `sniff`.
abbrev pub fish_line_limit : ℕ
fish_line_limit = 8 * 1024 * 1024

abbrev pub sniff_line_limit : ℕ
sniff_line_limit = 4 * 1024 * 1024

-- The digits in front, and the rest.
unfoldable pub span_digits : Bytes → Bytes × Bytes
span_digits [] = ([], [])
span_digits (c ∷ s) =
    let (digits, rest) = span_digits s in
    if digits_only (c ∷ []) then (c ∷ digits, rest) else ([], c ∷ s)

-- `strconv.ParseInt(strings.TrimSpace(s), 10, 64)` behind the sign, with `none` for an error.
unfoldable pub parse_unsigned : Bool → Bytes → Option ℤ
unfolding span_digits is_blank decimal digits_only
parse_unsigned minus s =
    let (digits, rest) = span_digits s in
    let n = decimal 0 digits in
    if is_empty digits || not (is_blank rest)
    then none
    else if minus
    then (if leb n (2 ^ 63) then some (sub_ℕ 0 n) else none)
    else if ltb n (2 ^ 63)
    then some (pos n)
    else none

unfoldable pub parse_signed : Bytes → Option ℤ
unfolding parse_unsigned
parse_signed [] = none
parse_signed (c ∷ s) =
    if c == b'-'
    then parse_unsigned true s
    else if c == b'+'
    then parse_unsigned false s
    else parse_unsigned false (c ∷ s)

-- `append(out, *cur)` for a command that is not blank.
unfoldable pub emit_fish : Option Entry → List Entry → List Entry
unfolding is_blank
emit_fish none rest = rest
emit_fish (some e) rest = if is_blank e.command then rest else e ∷ rest

unfoldable pub when_fish : Bytes → Entry → Entry
unfolding trim_left parse_signed wrap64 ◌*ℤ◌
when_fish line e = elim (parse_signed (trim_left (drop 8 line))) [
  | none ↦ e
  | some ts ↦ record e { start_time = wrap64 (ts *ℤ pos 1000) }
]

unfoldable pub fish_loop : Option Entry → List Bytes → List Entry
unfolding has_prefix unescape_fish emit_fish when_fish
fish_loop cur [] = emit_fish cur []
fish_loop cur (line ∷ lines) =
    let begun = fish_loop (some (undated (unescape_fish (drop 7 line)))) lines in
    let timed = fish_loop (Option.map (when_fish line) cur) lines in
    let passed = fish_loop cur lines in
    if has_prefix line (codes "- cmd: ")
    then emit_fish cur begun
    else if has_prefix line (codes "  when: ")
    then timed
    else passed

unfoldable pub parse_fish : Bytes → List Entry
unfolding fish_loop scan_within
parse_fish raw = fish_loop none (scan_within fish_line_limit raw).0

pub data Kind : Type 0 where
  bash zsh fish : Kind

-- The loop of `sniff`, over the rounds that are left.
unfoldable pub sniff_lines : ℕ → List Bytes → Kind
unfolding is_blank zsh_entry has_prefix
sniff_lines zero lines = Kind.bash
sniff_lines (suc rounds) [] = Kind.bash
sniff_lines (suc rounds) (line ∷ lines) =
    let next = sniff_lines rounds lines in
    if is_blank line then next else elim (zsh_entry line) [
      | some _ ↦ Kind.zsh
      | none ↦ if has_prefix line (codes "- cmd:") then Kind.fish else next
    ]

unfoldable pub sniff : Bytes → Kind
unfolding sniff_lines scan_within
sniff raw = sniff_lines 40 (scan_within sniff_line_limit raw).0

parse_as : Kind → Bytes → ℤ → List Entry
parse_as Kind.zsh raw mod_time = parse_zsh raw mod_time
parse_as Kind.fish raw mod_time = parse_fish raw
parse_as Kind.bash raw mod_time = parse_bash raw mod_time

-- `Parse` behind the reading of the file: its contents and its modification time.
unfoldable pub parse : Bytes → ℤ → Kind × List Entry
unfolding parse_as sniff parse_zsh parse_bash parse_fish
parse raw mod_time = let kind = sniff raw in (kind, parse_as kind raw mod_time)
