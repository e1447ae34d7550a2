-- ===== src/Tests/Theme.antt =====
-- Texts of one column for each rune.
use shcr.Base.{◌==◌, ℕ, ◌≤◌, List, [], ◌∷◌, ◌++◌, length, length-append, ◌≡◌, refl, ap, arith}
use shcr.Base.Bytes.{Bytes, codes}
use shcr.Base.Int.{pos, ◌-ℤ◌, ◌*ℤ◌, wrap64}
use shcr.Base.Decimal.{format_nat, format_int, digits}
use shcr.Theme.{
  cut_to, Segments, truncate, sanitize, trim_right, fitting, joined, marked, first_line,
  before_newline, tail_path, fitting_tail, split_keeping_spaces, split_behind, age, age_of,
  duration, ellipsis, dot,
}
use shcr.Theme.Fit.{SegmentLaws, Printable, total, truncate-fits}
use shcr.Theme.Wrap.{wrap, wrap_words, wrap_word, cut_word, put_word, flush, all_space}

abbrev cells : Bytes → List (Bytes × ℕ)
cells [] = []
cells (r ∷ s) = (r ∷ [], 1) ∷ cells s

abbrev plain : Segments
plain = record { graphemes = cells; width = λ s. length s }

cut_short : truncate plain (codes "make ... all") (pos 8) ≡ codes "make " ++ ellipsis ∷ []
unfolding truncate sanitize fitting joined marked trim_right
cut_short = refl

two_lines : first_line (codes "for i \ndo") ≡ codes "for i " ++ 0x21B5 ∷ []
unfolding first_line before_newline trim_right sanitize
two_lines = refl

tail : tail_path plain (codes "/home/me/src") (pos 5) ≡ ellipsis ∷ codes "/src"
unfolding tail_path fitting_tail joined
tail = refl

pieces : split_keeping_spaces (codes "ls  -l") ≡ codes "ls" ∷ codes "  " ∷ codes "-l" ∷ []
unfolding split_keeping_spaces split_behind
pieces = refl

ages :
    (age (pos 1000) (pos 90000000) ≡ codes "1d")
    × (age (pos 9000) (pos 1000) ≡ codes "now")
    × (age (pos 1) (pos 259200001) ≡ codes "3d")
unfolding age age_of wrap64 ◌-ℤ◌ ◌*ℤ◌ format_nat digits
ages = (refl, refl, refl)

durations :
    (duration format_int (pos 250) ≡ codes "250ms")
    × (duration format_int (pos 61000) ≡ codes "1m 1s")
    × (duration format_int (pos 7320000) ≡ codes "2h 2m")
unfolding duration wrap64 ◌*ℤ◌ format_int format_nat digits
durations = (refl, refl, refl)

whole : (s : Bytes) → joined (cells s) ≡ s
unfolding joined
whole [] = refl
whole (r ∷ s) = ap (◌∷◌ r) (whole s)

start :
    (s : Bytes) (front back : List (Bytes × ℕ))
    → cells s ≡ front ++ back
    → length (joined front) ≤ total front
unfolding joined
start s [] back e = omega arith
start [] ((cell, n) ∷ front) back e = cc e
start (r ∷ s) ((cell, n) ∷ front) back e =
    let rest : cells s ≡ front ++ back = cc e in
    let one : cell ≡ r ∷ [] = cc e in
    let column : n ≡ 1 = cc e in
    let cut = start s front back rest in rw (one, column) (omega (arith, cut))

laws : SegmentLaws plain
laws = record {
  whole = whole;
  start = start;
  blank = refl;
  dotted = λ s. omega (arith, length-append s (dot ∷ []));
  mark = λ s. omega (arith, length-append s (ellipsis ∷ []));
}

truncate-fits_example :
    (length (truncate plain (codes "make ... all") (pos 8)) ≤ 8)
    × Printable (truncate plain (codes "make ... all") (pos 8))
truncate-fits_example = truncate-fits plain laws (codes "make ... all") (pos 8)

wrapped :
    wrap plain plain.width (λ c. c == b' ') (codes "npm run dev") (pos 8) (pos 0)
    ≡ codes "npm run " ∷ codes "dev" ∷ []
unfolding wrap wrap_words wrap_word cut_word put_word flush all_space cut_to fitting joined
    split_keeping_spaces split_behind sanitize
wrapped = refl

long_word :
    wrap plain plain.width (λ c. c == b' ') (codes "ls /a/b/c/d") (pos 4) (pos 3)
    ≡ codes "ls " ∷ codes "/a/b" ∷ codes "/c/d" ∷ []
unfolding wrap wrap_words wrap_word cut_word put_word flush all_space cut_to fitting joined
    split_keeping_spaces split_behind sanitize
long_word = refl
