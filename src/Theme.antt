-- ===== src/Theme.antt =====
-- internal/theme/format.go: recorded text as it is shown in a terminal. A text is a list of runes,
-- that is, valid UTF-8; the segmentation into graphemes and their widths are those of the package
-- uniseg, and the width of styled text that of lipgloss.
pub mod Fit
pub mod Split
pub mod Ages
pub mod Wrap
use shcr.Base.{
  ℕ, zero, suc, ◌+◌, ◌-◌, ◌*◌, ◌/◌, ◌%◌, Bool, true, false, not, ◌&&◌, ◌||◌, Option, none, some,
  List, [], ◌∷◌, ◌++◌, if◌then◌else◌, ◌==◌, ltb, leb, map, length, drop, replicate,
}
use shcr.Base.Bytes.{Bytes, codes, is_empty}
use shcr.Base.Int.{ℤ, pos, pos_part, ◌-ℤ◌, ◌*ℤ◌, quot_ℕ, ltb_ℤ, leb_ℤ, wrap64}
use shcr.Base.Decimal.{format_nat, format_int}

-- The graphemes of a text with their widths, and `StringWidth`.
pub record Segments : Type 0 where
  pub graphemes : Bytes → List (Bytes × ℕ)
  pub width : Bytes → ℕ

-- A number of nanoseconds, from one of milliseconds.
abbrev pub nanoseconds : ℤ → ℤ
nanoseconds ms = wrap64 (ms *ℤ pos 1000000)

abbrev pub second : ℕ
second = 1000000000

abbrev pub minute : ℕ
minute = 60 * second

abbrev pub hour : ℕ
hour = 60 * minute

-- `int(d)` of a duration that is at least a second.
abbrev whole : ℤ → ℕ → ℕ
whole d unit = pos_part d / unit

-- The two verbs %d with their units.
abbrev two_parts : ℕ → Bytes → ℕ → Bytes → Bytes
two_parts a x b y = format_nat a ++ x ++ b' ' ∷ format_nat b ++ y

-- `one_decimal` is the verb %.1f of the seconds of a duration.
unfoldable pub duration : (ℤ → Bytes) → ℤ → Bytes
unfolding format_int format_nat
duration one_decimal ms =
    let d = nanoseconds ms in
    if ltb_ℤ d (pos second)
    then format_int ms ++ codes "ms"
    else if ltb_ℤ d (pos minute)
    then one_decimal d ++ codes "s"
    else if ltb_ℤ d (pos hour)
    then two_parts (whole d minute) (codes "m") (whole d second % 60) (codes "s")
    else two_parts (whole d hour) (codes "h") (whole d minute % 60) (codes "m")

-- The `switch` of `Age`, on the elapsed time.
unfoldable pub age_of : ℤ → Bytes
unfolding format_nat
age_of d =
    if ltb_ℤ d (pos minute)
    then codes "now"
    else if ltb_ℤ d (pos hour)
    then format_nat (whole d minute) ++ codes "m"
    else if ltb_ℤ d (pos (24 * hour))
    then format_nat (whole d hour) ++ codes "h"
    else if ltb_ℤ d (pos (7 * (24 * hour)))
    then format_nat (whole d (24 * hour)) ++ codes "d"
    else if ltb_ℤ d (pos (365 * (24 * hour)))
    then format_nat (whole d (7 * (24 * hour))) ++ codes "w"
    else format_nat (whole d (365 * (24 * hour))) ++ codes "y"

unfoldable pub age : ℤ → ℤ → Bytes
unfolding age_of
age ts now = if leb_ℤ ts (pos 0) then [] else age_of (nanoseconds (wrap64 (now -ℤ ts)))

-- The control characters of ASCII and of the eight-bit sets.
abbrev pub is_control : ℕ → Bool
is_control r = ltb r 0x20 || r == 0x7F || (leb 0x80 r && leb r 0x9F)

abbrev pub replacement : ℕ
replacement = 0xFFFD

abbrev pub shown_rune : Bool → ℕ → ℕ
shown_rune keep_newlines r =
    if r == b'\n' && keep_newlines then r else if is_control r then replacement else r

unfoldable pub sanitize : Bool → Bytes → Bytes
sanitize keep_newlines s = map (shown_rune keep_newlines) s

abbrev pub safe : Bytes → Bytes
safe s = sanitize false s

abbrev pub safe_multiline : Bytes → Bytes
safe_multiline s = sanitize true s

-- `strings.TrimRight` of a set of characters.
unfoldable pub trim_right : (ℕ → Bool) → Bytes → Bytes
trim_right cut [] = []
trim_right cut (c ∷ s) =
    let rest = trim_right cut s in if is_empty rest && cut c then [] else c ∷ rest

-- The text in front of the first newline, if there is one.
unfoldable pub before_newline : Bytes → Option Bytes
before_newline [] = none
before_newline (c ∷ s) =
    let rest = before_newline s in
    if c == b'\n' then some [] else elim rest [ none ↦ none | some line ↦ some (c ∷ line) ]

unfoldable pub first_line : Bytes → Bytes
unfolding before_newline trim_right sanitize
first_line s = elim (before_newline s) [
  | some line ↦ safe (trim_right (λ c. c == b' ' || c == 9) line) ++ b' ' ∷ 0x21B5 ∷ []
  | none ↦ safe s
]

abbrev pub ellipsis : ℕ
ellipsis = 0x2026

abbrev pub dot : ℕ
dot = 46

-- The loop over the graphemes that fit, behind `used` columns.
unfoldable pub fitting : ℕ → ℕ → List (Bytes × ℕ) → List (Bytes × ℕ)
fitting limit used [] = []
fitting limit used ((cell, n) ∷ cells) =
    let rest = fitting limit (used + n) cells in
    if ltb limit (used + n) then [] else (cell, n) ∷ rest

unfoldable pub joined : List (Bytes × ℕ) → Bytes
joined [] = []
joined ((cell, n) ∷ cells) = cell ++ joined cells

-- The graphemes that fit, counted from the end.
unfoldable pub fitting_tail : ℕ → List (Bytes × ℕ) → List (Bytes × ℕ) × ℕ × Bool
fitting_tail limit [] = ([], 0, false)
fitting_tail limit ((cell, n) ∷ cells) =
    let (kept, used, full) = fitting_tail limit cells in
    if full || ltb limit (used + n) then (kept, used, true) else ((cell, n) ∷ kept, used + n, false)

-- `strings.TrimRight(s, ".")`
abbrev pub no_dots : Bytes → Bytes
no_dots s = trim_right (λ c. c == dot) s

module _ (segments : Segments) where
  -- The cut text with its mark.
  unfoldable pub marked : Bytes → Bytes
  unfolding trim_right
  marked cut =
      let trimmed = no_dots cut in
      if segments.width trimmed == 0 then ellipsis ∷ [] else trimmed ++ ellipsis ∷ []

  unfoldable pub truncate : Bytes → ℤ → Bytes
  unfolding sanitize fitting joined marked
  truncate s w =
      let text = safe s in
      let n = pos_part w in
      if n == 0
      then []
      else if leb (segments.width text) n
      then text
      else if n == 1
      then ellipsis ∷ []
      else marked (joined (fitting (n - 1) 0 (segments.graphemes text)))

  unfoldable pub tail_path : Bytes → ℤ → Bytes
  unfolding fitting_tail joined
  tail_path p w =
      let n = pos_part w in
      if n == 0
      then []
      else if leb (segments.width p) n
      then p
      else if n == 1
      then ellipsis ∷ []
      else ellipsis ∷ joined (fitting_tail (n - 1) (segments.graphemes p)).0

  unfoldable pub cut_to : Bytes → ℤ → Bytes
  unfolding fitting joined
  cut_to s w =
      let n = pos_part w in if n == 0 then [] else joined (fitting n 0 (segments.graphemes s))

-- The pieces of the text behind `piece`, which is not empty and all spaces or none.
unfoldable pub split_behind : Bool → Bytes → Bytes → List Bytes
split_behind in_space piece [] = piece ∷ []
split_behind in_space piece (r ∷ s) =
    let longer = split_behind in_space (piece ++ r ∷ []) s in
    let other = piece ∷ split_behind (not in_space) (r ∷ []) s in
    if r == b' ' then (if in_space then longer else other) else if in_space then other else longer

unfoldable pub split_keeping_spaces : Bytes → List Bytes
unfolding split_behind
split_keeping_spaces [] = []
split_keeping_spaces (r ∷ s) = split_behind (r == b' ') (r ∷ []) s

-- `Pad`, with the width that lipgloss gives.
unfoldable pub pad : (Bytes → ℕ) → Bytes → ℕ → Bytes
pad width s w = s ++ replicate (w - width s) b' '
