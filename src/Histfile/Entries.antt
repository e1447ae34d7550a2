-- ===== src/Histfile/Entries.antt =====
-- `Entry`, and the pieces of a line that the three parsers share: `zshEntry`, `unmetafy`,
-- `continuesLine`, `unescapeFish`, and the loop that joins continued lines.
use Prim.Native.Nat.{bit_xor}
use shcr.Base.{
  ℕ, ◌+◌, ◌-◌, ◌%◌, Bool, not, ◌||◌, Option, none, some, List, [], ◌∷◌, ◌++◌, if◌then◌else◌, ◌==◌,
  take, drop,
}
use shcr.Base.Bytes.{Bytes, has_prefix, index_byte, codes, is_empty}
use shcr.Base.Int.{ℤ}
use shcr.Histfile.Text.{all_digits}

pub record Entry : Type 0 where
  pub command : Bytes
  pub start_time : ℤ
  pub approximate : Bool
  pub duration_ms : ℤ

-- The three parts of `: <started>:<elapsed>;<command>`.
unfoldable pub zsh_entry : Bytes → Option (Bytes × Bytes × Bytes)
unfolding has_prefix index_byte all_digits
zsh_entry line =
    let rest = drop 2 line in
    if has_prefix line (codes ": ")
    then elim (index_byte rest b':') [
      | none ↦ none
      | some colon ↦ elim (index_byte (drop colon rest) b';') [
        | none ↦ none
        | some semi ↦
            let started = take colon rest in
            let elapsed = take (semi - 1) (drop (colon + 1) rest) in
            if is_empty started || not (all_digits started) || not (all_digits elapsed)
            then none
            else some (started, elapsed, drop (colon + semi + 1) rest)
      ]
    ]
    else none

abbrev pub zsh_meta : ℕ
zsh_meta = 0x83

-- The loop of `unmetafy`.
unfoldable pub unmetafy_bytes : Bytes → Bytes
unmetafy_bytes [] = []
unmetafy_bytes (c ∷ []) = c ∷ []
unmetafy_bytes (c ∷ d ∷ s) =
    let escaped = bit_xor d 32 ∷ unmetafy_bytes s in
    let plain = c ∷ unmetafy_bytes (d ∷ s) in if c == zsh_meta then escaped else plain

unfoldable pub unmetafy : Bytes → Bytes
unfolding unmetafy_bytes index_byte
unmetafy b = elim (index_byte b zsh_meta) [ none ↦ b | some _ ↦ unmetafy_bytes b ]

-- The number of backslashes at the end of a line.
unfoldable pub trailing_backslashes : ℕ → Bytes → ℕ
trailing_backslashes n [] = n
trailing_backslashes n (c ∷ s) = trailing_backslashes (if c == b'\\' then n + 1 else 0) s

unfoldable pub continues_line : Bytes → Bool
unfolding trailing_backslashes
continues_line s = trailing_backslashes 0 s % 2 == 1

-- `cmd[:len(cmd)-1]`
unfoldable pub drop_last : Bytes → Bytes
drop_last [] = []
drop_last (c ∷ []) = []
drop_last (c ∷ d ∷ s) = c ∷ drop_last (d ∷ s)

-- `for continuesLine(cmd) && i+1 < len(lines)`: the command, and the lines behind it.
unfoldable pub join_continued : Bytes → List Bytes → Bytes × List Bytes
unfolding continues_line drop_last
join_continued cmd [] = (cmd, [])
join_continued cmd (line ∷ lines) =
    let joined = join_continued (drop_last cmd ++ (b'\n' ∷ line)) lines in
    if continues_line cmd then joined else (cmd, line ∷ lines)

-- The loop of `unescapeFish`.
unfoldable pub unescape_fish_bytes : Bytes → Bytes
unescape_fish_bytes [] = []
unescape_fish_bytes (c ∷ []) = c ∷ []
unescape_fish_bytes (c ∷ d ∷ s) =
    let newline = b'\n' ∷ unescape_fish_bytes s in
    let backslash = b'\\' ∷ unescape_fish_bytes s in
    let kept = b'\\' ∷ d ∷ unescape_fish_bytes s in
    let plain = c ∷ unescape_fish_bytes (d ∷ s) in
    if not (c == b'\\')
    then plain
    else if d == b'n'
    then newline
    else if d == b'\\'
    then backslash
    else kept

unfoldable pub unescape_fish : Bytes → Bytes
unfolding unescape_fish_bytes index_byte
unescape_fish s = elim (index_byte s b'\\') [ none ↦ s | some _ ↦ unescape_fish_bytes s ]
