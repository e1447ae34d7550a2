-- ===== src/Histfile/Text.antt =====
-- What histfile.go takes from `bytes`, `strings` and `strconv`, on byte lists.
use shcr.Base.{
  ℕ, ◌+◌, ◌-◌, ◌*◌, ◌^◌, Bool, true, false, ◌&&◌, ◌||◌, List, [], ◌∷◌, if◌then◌else◌, ◌==◌, ltb,
  leb,
}
use shcr.Base.Bytes.{Bytes}

-- A white space character of one byte, as `unicode.IsSpace` has it.
abbrev space1 : ℕ → Bool
space1 a = leb 9 a && leb a 13 || a == 32

-- U+0085 and U+00A0 in UTF-8.
abbrev space2 : ℕ → ℕ → Bool
space2 a b = a == 0xC2 && (b == 0x85 || b == 0xA0)

-- U+1680, U+2000 to U+200A, U+2028, U+2029, U+202F, U+205F and U+3000 in UTF-8.
abbrev space3 : ℕ → ℕ → ℕ → Bool
space3 a b c =
    a == 0xE1 && b == 0x9A && c == 0x80
    || a == 0xE2 && b == 0x80 && (leb 0x80 c && leb c 0x8A || c == 0xA8 || c == 0xA9 || c == 0xAF)
    || a == 0xE2 && b == 0x81 && c == 0x9F
    || a == 0xE3 && b == 0x80 && c == 0x80

-- `strings.TrimLeft` of white space.
unfoldable pub trim_left : Bytes → Bytes
trim_left [] = []
trim_left (a ∷ []) = if space1 a then [] else a ∷ []
trim_left (a ∷ b ∷ []) =
    let rest = trim_left (b ∷ []) in
    if space1 a then rest else if space2 a b then [] else a ∷ b ∷ []
trim_left (a ∷ b ∷ c ∷ s) =
    let rest1 = trim_left (b ∷ c ∷ s) in
    let rest2 = trim_left (c ∷ s) in
    let rest3 = trim_left s in
    if space1 a
    then rest1
    else if space2 a b
    then rest2
    else if space3 a b c
    then rest3
    else a ∷ b ∷ c ∷ s

-- `len(bytes.TrimSpace(s)) == 0`: what TrimLeft leaves does not begin with white space, so that
-- trimming on the right cannot empty it.
unfoldable pub is_blank : Bytes → Bool
unfolding trim_left
is_blank s = elim (trim_left s) [ [] ↦ true | _ ↦ false ]

abbrev is_digit : ℕ → Bool
is_digit c = leb b'0' c && leb c b'9'

unfoldable pub digits_only : Bytes → Bool
digits_only [] = true
digits_only (c ∷ s) = is_digit c && digits_only s

unfoldable pub all_digits : Bytes → Bool
unfolding digits_only
all_digits [] = false
all_digits (c ∷ s) = digits_only (c ∷ s)

unfoldable pub decimal : ℕ → Bytes → ℕ
decimal n [] = n
decimal n (c ∷ s) = decimal (n * 10 + (c - b'0')) s

-- `strconv.ParseInt(s, 10, 64)` on digits: the value, which stops at the largest one, and whether
-- there was no error.
unfoldable pub parse_digits : Bytes → ℕ × Bool
unfolding decimal
parse_digits s = let n = decimal 0 s in if ltb n (2 ^ 63) then (n, true) else (2 ^ 63 - 1, false)

-- `bytes.Split(s, "\n")`
unfoldable pub split_lines : Bytes → List Bytes
split_lines [] = [] ∷ []
split_lines (c ∷ s) =
    let lines = split_lines s in
    if c == b'\n' then [] ∷ lines else elim lines [ [] ↦ (c ∷ []) ∷ [] | l ∷ ls ↦ (c ∷ l) ∷ ls ]
