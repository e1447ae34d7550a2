-- ===== src/Theme/Split.antt =====
-- internal/theme/format.go, `splitKeepingSpaces`: the pieces of a text.
use shcr.Base.{
  ℕ, Bool, true, false, not, List, [], ◌∷◌, ◌++◌, ◌==◌, append_assoc, ◌≡◌, refl, ap, ◌∙◌, inl, inr,
  Bool-cases, All, All-append,
}
use shcr.Base.Bytes.{Bytes, is_empty}
use shcr.Theme.{split_behind, split_keeping_spaces}

abbrev concat : List Bytes → Bytes
concat [] = []
concat (piece ∷ pieces) = piece ++ concat pieces

-- A piece is not empty, and is made of spaces or has none.
abbrev IsPiece : Bytes → Type 0
IsPiece piece = (is_empty piece ≡ false) × ((b : Bool) × All (λ r. (r == b' ') ≡ b) piece)

split_behind-concat :
    (in_space : Bool) (piece s : Bytes) → concat (split_behind in_space piece s) ≡ piece ++ s
unfolding split_behind
split_behind-concat in_space piece [] = refl
split_behind-concat in_space piece (r ∷ s) =
    let longer = split_behind-concat in_space (piece ++ r ∷ []) s ∙ append_assoc piece (r ∷ []) s in
    let other = ap (piece ++◌) (split_behind-concat (not in_space) (r ∷ []) s) in
    elim (Bool-cases (r == b' ')) [
      | inl space ↦ elim (Bool-cases in_space) [
        | inl inside ↦ rw (space, inside) (rw inside at longer)
        | inr outside ↦ rw (space, outside) (rw outside at other)
      ]
      | inr letter ↦ elim (Bool-cases in_space) [
        | inl inside ↦ rw (letter, inside) (rw inside at other)
        | inr outside ↦ rw (letter, outside) (rw outside at longer)
      ]
    ]

snoc-full : (piece : Bytes) (r : ℕ) → is_empty (piece ++ r ∷ []) ≡ false
snoc-full [] r = refl
snoc-full (c ∷ piece) r = refl

split_behind-IsPiece :
    (in_space : Bool) (piece s : Bytes)
    → is_empty piece ≡ false
    → All (λ r. (r == b' ') ≡ in_space) piece
    → All IsPiece (split_behind in_space piece s)
unfolding split_behind
split_behind-IsPiece in_space piece [] full same = ((full, (in_space, same)), tt)
split_behind-IsPiece true piece (r ∷ s) full same = elim (Bool-cases (r == b' ')) [
  | inl space ↦ rw space (
      split_behind-IsPiece true (piece ++ r ∷ []) s (snoc-full piece r)
        (All-append (λ q. (q == b' ') ≡ true) piece (r ∷ []) same (space, tt)))
  | inr letter ↦
      rw letter ((full, (true, same)), split_behind-IsPiece false (r ∷ []) s refl (letter, tt))
]
split_behind-IsPiece false piece (r ∷ s) full same = elim (Bool-cases (r == b' ')) [
  | inl space ↦
      rw space ((full, (false, same)), split_behind-IsPiece true (r ∷ []) s refl (space, tt))
  | inr letter ↦ rw letter (
      split_behind-IsPiece false (piece ++ r ∷ []) s (snoc-full piece r)
        (All-append (λ q. (q == b' ') ≡ false) piece (r ∷ []) same (letter, tt)))
]

-- The pieces of a text, put together, are the text, and each of them is a word or a run of spaces.
split_keeping_spaces-concat :
    (s : Bytes) → (concat (split_keeping_spaces s) ≡ s) × All IsPiece (split_keeping_spaces s)
unfolding split_keeping_spaces
split_keeping_spaces-concat [] = (refl, tt)
split_keeping_spaces-concat (r ∷ s) = (
  split_behind-concat (r == b' ') (r ∷ []) s,
  split_behind-IsPiece (r == b' ') (r ∷ []) s refl (refl, tt),
)
