-- ===== src/Theme/Fit.antt =====
-- internal/theme/format.go, `Truncate`: the columns that a cut text takes.
use shcr.Base.{
  ℕ, zero, suc, ◌+◌, ◌-◌, ◌≤◌, false, ◌&&◌, List, [], ◌∷◌, ◌++◌, ◌==◌, ltb, leb, append-nil,
  append_assoc, replicate, ◌≡◌, refl, sym, subst, ap, ap₂, leb→le, ◌∙◌, inl, inr, arith, Bool-cases,
  All, All-append,
}
use shcr.Base.Bytes.{Bytes, is_empty}
use shcr.Base.Int.{ℤ, pos_part}
use shcr.Theme.{
  Segments, is_control, sanitize, safe, trim_right, no_dots, dot, ellipsis, fitting, joined, marked,
  truncate,
}

abbrev pub total : List (Bytes × ℕ) → ℕ
total [] = 0
total ((cell, n) ∷ cells) = n + total cells

-- What uniseg documents of its widths, as far as it is used: the graphemes are the text, those at
-- its start take no more than their columns, a dot takes none away, and the mark adds at most one.
pub record SegmentLaws (segments : Segments) : Type 0 where
  pub whole : (s : Bytes) → joined (segments.graphemes s) ≡ s
  pub start :
      (s : Bytes) (front back : List (Bytes × ℕ))
      → segments.graphemes s ≡ front ++ back
      → segments.width (joined front) ≤ total front
  pub blank : segments.width [] ≡ 0
  pub dotted : (s : Bytes) → segments.width s ≤ segments.width (s ++ dot ∷ [])
  pub mark : (s : Bytes) → segments.width (s ++ ellipsis ∷ []) ≤ segments.width s + 1

-- A text without a control character.
abbrev pub Printable : Bytes → Type 0
Printable s = All (λ r. is_control r ≡ false) s

safe-Printable : (s : Bytes) → Printable (safe s)
unfolding sanitize
safe-Printable [] = tt
safe-Printable (r ∷ s) = (ground arith, safe-Printable s)

fitting-total :
    (limit used : ℕ) (cells : List (Bytes × ℕ))
    → used ≤ limit
    → used + total (fitting limit used cells) ≤ limit
unfolding fitting
fitting-total limit used [] h = omega arith
fitting-total limit used ((cell, n) ∷ cells) h = elim (Bool-cases (ltb limit (used + n))) [
  | inl over ↦ rw over (omega arith)
  | inr fits ↦
      let rest = fitting-total limit (used + n) cells (ground arith) in rw fits (omega arith)
]

fitting-start :
    (limit used : ℕ) (cells : List (Bytes × ℕ))
    → (back : List (Bytes × ℕ)) × (cells ≡ fitting limit used cells ++ back)
unfolding fitting
fitting-start limit used [] = ([], refl)
fitting-start limit used ((cell, n) ∷ cells) = elim (Bool-cases (ltb limit (used + n))) [
  | inl over ↦ ((cell, n) ∷ cells, rw over refl)
  | inr fits ↦
      let (back, e) = fitting-start limit (used + n) cells in (back, rw fits (ap (◌∷◌ (cell, n)) e))
]

All-split : (P : ℕ → Type 0) (xs ys : Bytes) → All P (xs ++ ys) → All P xs × All P ys
All-split P [] ys h = (tt, h)
All-split P (x ∷ xs) ys h = let (a, b) = All-split P xs ys h.1 in ((h.0, a), b)

All-front :
    (P : ℕ → Type 0) (front back : List (Bytes × ℕ))
    → All P (joined (front ++ back))
    → All P (joined front)
unfolding joined
All-front P [] back h = tt
All-front P ((cell, n) ∷ front) back h =
    let (here, rest) = All-split P cell (joined (front ++ back)) h in
    All-append P cell (joined front) here (All-front P front back rest)

trim_right-replicate : (s : Bytes) → (k : ℕ) × (s ≡ no_dots s ++ replicate k dot)
unfolding trim_right
trim_right-replicate [] = (0, refl)
trim_right-replicate (c ∷ s) =
    let (k, e) = trim_right-replicate s in
    elim (Bool-cases (is_empty (no_dots s) && c == dot)) [
      | inl cut ↦
          let bare : no_dots s ≡ [] = ground arith in
          let is : c ≡ dot = ground arith in
          let tail : s ≡ replicate k dot = e ∙ ap (◌++ replicate k dot) bare in
          (suc k, rw (cut, trim_right) (ap₂ ◌∷◌ is tail))
      | inr kept ↦ (k, rw (kept, trim_right) (ap (◌∷◌ c) e))
    ]

trim_right-Printable : (s : Bytes) → Printable s → Printable (no_dots s)
unfolding trim_right
trim_right-Printable [] h = tt
trim_right-Printable (c ∷ s) h =
    let rest = trim_right-Printable s h.1 in
    elim (Bool-cases (is_empty (no_dots s) && c == dot)) [
      | inl cut ↦ rw (cut, trim_right) tt
      | inr kept ↦ rw (kept, trim_right) (h.0, rest)
    ]

module _ (segments : Segments) (laws : SegmentLaws segments) where
  width-dots : (k : ℕ) (s : Bytes) → segments.width s ≤ segments.width (s ++ replicate k dot)
  width-dots zero s = rw (append-nil s) (omega arith)
  width-dots (suc k) s =
      let one = laws.dotted s in
      let rest = width-dots k (s ++ dot ∷ []) in
      let same = ap segments.width (append_assoc s (dot ∷ []) (replicate k dot)) in
      omega (arith, one, rest, same)

  no_dots-width : (s : Bytes) → segments.width (no_dots s) ≤ segments.width s
  no_dots-width s =
      let (k, e) = trim_right-replicate s in
      let same = ap segments.width e in omega (arith, width-dots k (no_dots s), same)

  marked-width : (s : Bytes) → segments.width (marked segments s) ≤ segments.width s + 1
  unfolding marked
  marked-width s = elim (Bool-cases (segments.width (no_dots s) == 0)) [
    | inl bare ↦ rw (bare, marked) (omega (arith, laws.mark [], laws.blank))
    | inr kept ↦ rw (kept, marked) (omega (arith, laws.mark (no_dots s), no_dots-width s))
  ]

  marked-Printable : (s : Bytes) → Printable s → Printable (marked segments s)
  unfolding marked
  marked-Printable s h = elim (Bool-cases (segments.width (no_dots s) == 0)) [
    | inl bare ↦ rw (bare, marked) (refl, tt)
    | inr kept ↦
        rw (kept, marked)
          (All-append (λ r. is_control r ≡ false) (no_dots s) (ellipsis ∷ [])
            (trim_right-Printable s h) (refl, tt))
  ]

  cut-width :
      (limit : ℕ) (s : Bytes)
      → segments.width (joined (fitting limit 0 (segments.graphemes s))) ≤ limit
  cut-width limit s =
      let (back, e) = fitting-start limit 0 (segments.graphemes s) in
      let cells = fitting limit 0 (segments.graphemes s) in
      omega (
        arith,
        laws.start s cells back e,
        fitting-total limit 0 (segments.graphemes s) (omega arith),
      )

  cut-Printable :
      (limit : ℕ) (s : Bytes)
      → Printable s
      → Printable (joined (fitting limit 0 (segments.graphemes s)))
  cut-Printable limit s h =
      let (back, e) = fitting-start limit 0 (segments.graphemes s) in
      let same : joined (fitting limit 0 (segments.graphemes s) ++ back) ≡ s =
        ap joined (sym e) ∙ laws.whole s in
      All-front (λ r. is_control r ≡ false) (fitting limit 0 (segments.graphemes s)) back
        (subst Printable (sym same) h)

  -- A text that is cut to a width takes no more columns than that, and none if it is not positive,
  -- and holds no control character, whatever the text holds; if the widths of the graphemes are as
  -- uniseg documents them.
  pub truncate-fits :
      (s : Bytes) (w : ℤ)
      → (segments.width (truncate segments s w) ≤ pos_part w) × Printable (truncate segments s w)
  unfolding truncate
  truncate-fits s w =
      let text = safe s in
      let n = pos_part w in
      elim (Bool-cases (n == 0)) [
        | inl none_left ↦ rw (none_left, truncate) (omega (arith, laws.blank), tt)
        | inr some_left ↦ elim (Bool-cases (leb (segments.width text) n)) [
          | inl fits ↦
              rw (some_left, fits, truncate) (leb→le (segments.width text) n fits, safe-Printable s)
          | inr over ↦ elim (Bool-cases (n == 1)) [
            | inl one ↦
                rw (some_left, over, one, truncate)
                  (ground (arith, laws.mark [], laws.blank), (refl, tt))
            | inr more ↦
                rw (some_left, over, more, truncate)
                  (
                    ground (
                      arith,
                      marked-width (joined (fitting (n - 1) 0 (segments.graphemes text))),
                      cut-width (n - 1) text,
                    ),
                    marked-Printable _ (cut-Printable (n - 1) text (safe-Printable s)),
                  )
          ]
        ]
      ]
