-- ===== src/Redact/Secrecy.antt =====
-- What a redacted text says of the secret: nothing.
use native.Mathlib.Nat.{zero-add}
use shcr.Base.{
  ℕ, suc, zero, ◌+◌, ◌-◌, ◌≤◌, ◌<◌, Bool, true, false, List, [], ◌∷◌, if◌then◌else◌, get_elem?,
  take, drop, ◌≡◌, refl, sym, ap₂, ◌∙◌, ◌⊎◌, inl, inr, arith, Bool-cases,
}
use shcr.Base.Bytes.{Bytes}
use shcr.Base.Int.{ℤ, pos, pos_part, ◌≤ℤ◌, ◌<ℤ◌}
use shcr.Redact.{Rule, secret_span, is_absent, slice, replace_loop, replace_group}

get_elem?-drop : (n i : ℕ) (s : Bytes) → get_elem? (drop n s) i ≡ get_elem? s (n + i)
get_elem?-drop zero i s = rw zero-add refl
get_elem?-drop (suc n) i [] = refl
get_elem?-drop (suc n) i (c ∷ s) =
    let e : suc n + i ≡ suc (n + i) = omega arith in rw e (get_elem?-drop n i s)

take-ext :
    (n : ℕ) (s t : Bytes) → ((i : ℕ) → i < n → get_elem? s i ≡ get_elem? t i) → take n s ≡ take n t
take-ext zero s t h = refl
take-ext (suc n) [] [] h = refl
take-ext (suc n) [] (d ∷ t) h = cc (h 0 (omega arith))
take-ext (suc n) (c ∷ s) [] h = cc (h 0 (omega arith))
take-ext (suc n) (c ∷ s) (d ∷ t) h =
    ap₂ ◌∷◌ (ground (arith, h 0 (omega arith))) (take-ext n s t (λ i lt. h (suc i) (omega arith)))

ext : (s t : Bytes) → ((i : ℕ) → get_elem? s i ≡ get_elem? t i) → s ≡ t
ext [] [] h = refl
ext [] (d ∷ t) h = cc (h 0)
ext (c ∷ s) [] h = cc (h 0)
ext (c ∷ s) (d ∷ t) h = ap₂ ◌∷◌ (ground (arith, h 0)) (ext s t (λ i. h (suc i)))

-- Two texts that agree from `a` up to `b` have the same slice there.
slice-ext :
    (s t : Bytes) (a b : ℕ)
    → ((i : ℕ) → a ≤ i → i < b → get_elem? s i ≡ get_elem? t i)
    → slice s a b ≡ slice t a b
slice-ext s t a b h = take-ext (b - a) (drop a s) (drop a t) (λ i lt.
    get_elem?-drop a i s ∙ h (a + i) (omega arith) (omega arith) ∙ sym (get_elem?-drop a i t))

drop-ext :
    (s t : Bytes) (a : ℕ) → ((i : ℕ) → a ≤ i → get_elem? s i ≡ get_elem? t i) → drop a s ≡ drop a t
drop-ext s t a h =
    ext (drop a s) (drop a t)
      (λ i. get_elem?-drop a i s ∙ h (a + i) (omega arith) ∙ sym (get_elem?-drop a i t))

-- The spans that are there follow one another from `last` on, as the matches of FindAll do.
abbrev pub OrderedSpans : Rule → ℕ → List (List ℤ) → Type 0
OrderedSpans rule last [] = Unit
OrderedSpans rule last (m ∷ ms) =
    let (start, end) = secret_span rule m in
    if is_absent start end
    then OrderedSpans rule last ms
    else (pos last ≤ℤ start) × (start ≤ℤ end) × OrderedSpans rule (pos_part end) ms

-- The byte at `i` belongs to a secret.
abbrev pub IsSecret : Rule → ℕ → List (List ℤ) → Type 0
IsSecret rule i [] = ⊥
IsSecret rule i (m ∷ ms) =
    let (start, end) = secret_span rule m in
    (is_absent start end ≡ false) × (start ≤ℤ pos i) × (pos i <ℤ end) ⊎ IsSecret rule i ms

module _ (rule : Rule) where
  abbrev absent : List ℤ → Bool
  absent m = is_absent (secret_span rule m).0 (secret_span rule m).1

  abbrev Span : ℕ → List ℤ → List (List ℤ) → Type 0
  Span last m ms =
      (pos last ≤ℤ (secret_span rule m).0)
      × ((secret_span rule m).0 ≤ℤ (secret_span rule m).1)
      × OrderedSpans rule (pos_part (secret_span rule m).1) ms

  present :
      (last : ℕ) (m : List ℤ) (ms : List (List ℤ))
      → absent m ≡ false
      → OrderedSpans rule last (m ∷ ms)
      → Span last m ms
  present last m ms there o = rw there at o

  later :
      (last : ℕ) (m : List ℤ) (ms : List (List ℤ))
      → absent m ≡ true
      → OrderedSpans rule last (m ∷ ms)
      → OrderedSpans rule last ms
  later last m ms missing o = rw missing at o

  secrets_from :
      (last i : ℕ) (ms : List (List ℤ)) → OrderedSpans rule last ms → IsSecret rule i ms → last ≤ i
  secrets_from last i [] o h = absurd h
  secrets_from last i (m ∷ ms) o h = elim (Bool-cases (absent m)) [
    | inl missing ↦ elim h [
      | inl (there, _, _) ↦ cc
      | inr q ↦ secrets_from last i ms (later last m ms missing o) q
    ]
    | inr there ↦
        let (from, upto, rest) = present last m ms there o in
        elim h [
          | inl (_, low, high) ↦ omega arith
          | inr q ↦
              let behind = secrets_from (pos_part (secret_span rule m).1) i ms rest q in
              ground arith
        ]
  ]

  replace_loop-ext :
      (s t : Bytes) (last : ℕ) (ms : List (List ℤ))
      → OrderedSpans rule last ms
      → ((i : ℕ) → last ≤ i → ¬ IsSecret rule i ms → get_elem? s i ≡ get_elem? t i)
      → replace_loop rule s last ms ≡ replace_loop rule t last ms
  unfolding replace_loop
  replace_loop-ext s t last [] o agree =
      ground (arith, drop-ext s t last (λ i le. agree i le (λ h. h)))
  replace_loop-ext s t last (m ∷ ms) o agree = elim (Bool-cases (absent m)) [
    | inl missing ↦
        let passed : replace_loop rule s last ms ≡ replace_loop rule t last ms =
          replace_loop-ext s t last ms (later last m ms missing o) (λ i le open_byte.
            agree i le (λ h. elim h [ inl (there, _, _) ↦ cc | inr q ↦ open_byte q ])) in
        ground arith
    | inr there ↦
        let (from, upto, rest) = present last m ms there o in
        let end = pos_part (secret_span rule m).1 in
        let behind = replace_loop-ext s t end ms rest (λ i le open_byte.
          agree i (ground arith)
            (λ h. elim h [ inl (_, low, high) ↦ ground arith | inr q ↦ open_byte q ])) in
        let front = slice-ext s t last (pos_part (secret_span rule m).0) (λ i le lt.
          agree i le (λ h. elim h [
            | inl (_, low, high) ↦ ground arith
            | inr q ↦ let beyond = secrets_from end i ms rest q in ground arith
          ])) in
        ground arith
  ]

  -- Where no span is replaced, no byte is a secret.
  none_replaced :
      (s : Bytes) (last i : ℕ) (ms : List (List ℤ))
      → OrderedSpans rule last ms
      → (replace_loop rule s last ms).1 ≡ 0
      → ¬ IsSecret rule i ms
  unfolding replace_loop
  none_replaced s last i [] o zero_count h = h
  none_replaced s last i (m ∷ ms) o zero_count h = elim (Bool-cases (absent m)) [
    | inl missing ↦ elim h [
      | inl (there, _, _) ↦ cc
      | inr q ↦ none_replaced s last i ms (later last m ms missing o) (ground (arith, missing)) q
    ]
    | inr there ↦ let (from, upto, rest) = present last m ms there o in ground arith
  ]

-- Two texts that a rule matches at the same places, and that differ only inside the spans it takes
-- for secrets, are redacted to the same text, with the same count. The spans are in order, as the
-- matches of FindAll are.
pub replace_group_secrecy :
    (rule : Rule) (s t : Bytes) (ms : List (List ℤ))
    → rule.re.find_all s ≡ ms
    → rule.re.find_all t ≡ ms
    → OrderedSpans rule 0 ms
    → ((i : ℕ) → ¬ IsSecret rule i ms → get_elem? s i ≡ get_elem? t i)
    → replace_group rule s ≡ replace_group rule t
unfolding replace_group
replace_group_secrecy rule s t ms in_s in_t o agree =
    let same = replace_loop-ext rule s t 0 ms o (λ i le open_byte. agree i open_byte) in
    let equal : (replace_loop rule s 0 ms).1 ≡ 0 → s ≡ t =
      λ none_there. ext s t (λ i. agree i (none_replaced rule s 0 i ms o none_there)) in
    rw (in_s, in_t) (ground (arith, same, equal))
