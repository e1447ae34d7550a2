-- ===== src/Histfile/Scanner.antt =====
-- A `bufio.Scanner` over lines whose buffer has a limit, as the program uses it
-- for history files, batches, spool files and rules: at a line that fills the
-- buffer before its newline, the scan stops, and `Err` is `ErrTooLong`.
use shcr.Base.{
  ℕ, Bool, true, false, List, [], ◌∷◌, ◌++◌, if◌then◌else◌, leb, length, ◌==◌, ◌≡◌, ◌≢◌, refl, ap,
  inl, inr, arith, Bool-cases, All,
}
use shcr.Base.Bytes.{Bytes, is_empty}
use shcr.Histfile.Text.{split_lines}

-- `bufio.ScanLines`: no empty line behind the last newline, and no carriage return at the end of a
-- line.
unfoldable pub drop_cr : Bytes → Bytes
drop_cr [] = []
drop_cr (c ∷ []) = if c == b'\r' then [] else c ∷ []
drop_cr (c ∷ d ∷ s) = c ∷ drop_cr (d ∷ s)

unfoldable pub scanned : List Bytes → List Bytes
unfolding drop_cr
scanned [] = []
scanned (l ∷ []) = if is_empty l then [] else drop_cr l ∷ []
scanned (l ∷ m ∷ ls) = drop_cr l ∷ scanned (m ∷ ls)

unfoldable pub scan_lines : Bytes → List Bytes
unfolding scanned split_lines
scan_lines raw = scanned (split_lines raw)

-- The lines up to the first that is too long, and whether there is one.
unfoldable pub scanned_within : ℕ → List Bytes → List Bytes × Bool
unfolding drop_cr
scanned_within limit [] = ([], false)
scanned_within limit (l ∷ []) =
    if leb limit (length l)
    then ([], true)
    else if is_empty l
    then ([], false)
    else (drop_cr l ∷ [], false)
scanned_within limit (l ∷ m ∷ ls) =
    let (lines, too_long) = scanned_within limit (m ∷ ls) in
    if leb limit (length l) then ([], true) else (drop_cr l ∷ lines, too_long)

unfoldable pub scan_within : ℕ → Bytes → List Bytes × Bool
unfolding scanned_within split_lines
scan_within limit raw = scanned_within limit (split_lines raw)

scanned_within-scanned :
    (limit : ℕ) (ls : List Bytes)
    → (scanned_within limit ls).1 ≡ false
    → (scanned_within limit ls).0 ≡ scanned ls
unfolding scanned_within scanned
scanned_within-scanned limit [] h = refl
scanned_within-scanned limit (l ∷ []) h = ground (arith, h)
scanned_within-scanned limit (l ∷ m ∷ ls) h = elim (Bool-cases (leb limit (length l))) [
  | inl long ↦ cc (rw (long, scanned_within) at h)
  | inr fits ↦
      let rest : (scanned_within limit (m ∷ ls)).1 ≡ false = rw (fits, scanned_within) at h in
      rw (fits, scanned_within) (ap (◌∷◌ (drop_cr l)) (scanned_within-scanned limit (m ∷ ls) rest))
]

-- A scan without an error has read every line.
pub scan_within-scan_lines :
    (limit : ℕ) (raw : Bytes)
    → (scan_within limit raw).1 ≡ false
    → (scan_within limit raw).0 ≡ scan_lines raw
unfolding scan_within scan_lines
scan_within-scan_lines limit raw h = scanned_within-scanned limit (split_lines raw) h

split_lines-append :
    (line rest : Bytes)
    → All (λ c. c ≢ 10) line
    → split_lines (line ++ 10 ∷ rest) ≡ line ∷ split_lines rest
unfolding split_lines
split_lines-append [] rest h = refl
split_lines-append (c ∷ line) rest h = ground (arith, split_lines-append line rest h.1)

split_lines-cons : (s : Bytes) → (l : Bytes) × (ls : List Bytes) × (split_lines s ≡ l ∷ ls)
unfolding split_lines
split_lines-cons [] = ([], [], refl)
split_lines-cons (c ∷ s) =
    let (l, ls, e) = split_lines-cons s in
    elim (Bool-cases (c == 10)) [
      | inl newline ↦ ([], split_lines s, rw newline refl)
      | inr other ↦ (c ∷ l, ls, rw (other, e) refl)
    ]

-- A line and its newline in front of a text.
pub scan_within-append :
    (limit : ℕ) (line rest : Bytes)
    → All (λ c. c ≢ 10) line
    → scan_within limit (line ++ 10 ∷ rest) ≡ (
        if leb limit (length line)
        then ([], true)
        else (drop_cr line ∷ (scan_within limit rest).0, (scan_within limit rest).1))
unfolding scan_within scanned_within
scan_within-append limit line rest h =
    let (l, ls, e) = split_lines-cons rest in rw (split_lines-append line rest h) (rw e refl)
