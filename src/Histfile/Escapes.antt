-- ===== src/Histfile/Escapes.antt =====
-- Reading back what zsh and fish write.
use Prim.Native.Nat.{bit_xor}
use shcr.Base.{
  ℕ, zero, suc, ◌<◌, Bool, true, false, ◌&&◌, none, [], ◌∷◌, if◌then◌else◌, ◌==◌, ==_iff, All,
  Bool-cases, Option-cases, ◌≡◌, refl, sym, ap, ap₂, ◌∙◌, inl, inr, arith,
}
use shcr.Base.Bytes.{Bytes, index_byte}
use shcr.Histfile.Entries.{zsh_meta, unmetafy, unmetafy_bytes, unescape_fish, unescape_fish_bytes}

-- How zsh writes a string, for the set of bytes that it escapes.
pub metafy : (ℕ → Bool) → Bytes → Bytes
metafy special [] = []
metafy special (c ∷ s) =
    if special c then zsh_meta ∷ bit_xor c 32 ∷ metafy special s else c ∷ metafy special s

-- How fish writes a string.
pub escape_fish : Bytes → Bytes
escape_fish [] = []
escape_fish (c ∷ s) =
    if c == b'\n'
    then b'\\' ∷ b'n' ∷ escape_fish s
    else if c == b'\\'
    then b'\\' ∷ b'\\' ∷ escape_fish s
    else c ∷ escape_fish s

-- `test` holds of every number that is less than `bound`.
test_all : (ℕ → Bool) → ℕ → Bool
test_all test zero = true
test_all test (suc bound) = test_all test bound && test bound

test_all-lt :
    (test : ℕ → Bool) (bound c : ℕ) → c < bound → test_all test bound ≡ true → test c ≡ true
unfolding test_all
test_all-lt test zero c small all = elim small [ ]
test_all-lt test (suc bound) c small all = ground (arith, test_all-lt test bound c)

abbrev flips_back : ℕ → Bool
flips_back c = bit_xor (bit_xor c 32) 32 == c

every_flip : test_all flips_back 256 ≡ true
unfolding test_all
every_flip = refl

toggle_twice : (c : ℕ) → c < 256 → bit_xor (bit_xor c 32) 32 ≡ c
toggle_twice c small = (==_iff _ c).0 (test_all-lt flips_back 256 c small every_flip)

abbrev pub IsByte : ℕ → Type 0
IsByte c = c < 256

-- The fast path returns what the loop would.
unmetafy_bytes-none : (s : Bytes) → index_byte s zsh_meta ≡ none → unmetafy_bytes s ≡ s
unfolding unmetafy_bytes index_byte
unmetafy_bytes-none [] h = refl
unmetafy_bytes-none (c ∷ []) h = refl
unmetafy_bytes-none (c ∷ d ∷ s) h = ground (arith, unmetafy_bytes-none (d ∷ s))

unmetafy-bytes : (s : Bytes) → unmetafy s ≡ unmetafy_bytes s
unfolding unmetafy
unmetafy-bytes s = elim (Option-cases (index_byte s zsh_meta)) [
  | inl plain ↦ rw (plain, unmetafy) (sym (unmetafy_bytes-none s plain))
  | inr (i, found) ↦ rw (found, unmetafy) refl
]

unmetafy_bytes-plain :
    (c : ℕ) (s : Bytes) → (c == zsh_meta) ≡ false → unmetafy_bytes (c ∷ s) ≡ c ∷ unmetafy_bytes s
unfolding unmetafy_bytes
unmetafy_bytes-plain c [] h = refl
unmetafy_bytes-plain c (d ∷ s) h = rw h refl

unmetafy_bytes-escaped :
    (d : ℕ) (s : Bytes) → unmetafy_bytes (zsh_meta ∷ d ∷ s) ≡ bit_xor d 32 ∷ unmetafy_bytes s
unfolding unmetafy_bytes
unmetafy_bytes-escaped d s = refl

unmetafy_bytes-metafy :
    (special : ℕ → Bool) (s : Bytes)
    → special zsh_meta ≡ true
    → All IsByte s
    → unmetafy_bytes (metafy special s) ≡ s
unfolding metafy
unmetafy_bytes-metafy special [] h b = unfold unmetafy_bytes in refl
unmetafy_bytes-metafy special (c ∷ s) h b = elim (Bool-cases (special c)) [
  | inl escaped ↦ rw escaped (
      unmetafy_bytes-escaped (bit_xor c 32) (metafy special s)
      ∙ ap₂ ◌∷◌ (toggle_twice c b.0) (unmetafy_bytes-metafy special s h b.1))
  | inr plain ↦ rw plain (
      unmetafy_bytes-plain c (metafy special s) (ground (arith, ==_iff c zsh_meta))
      ∙ ap (◌∷◌ c) (unmetafy_bytes-metafy special s h b.1))
]

-- Whatever bytes zsh escapes, its escape byte among them, `unmetafy` gives back the text that was
-- written.
pub unmetafy-metafy :
    (special : ℕ → Bool) (s : Bytes)
    → special zsh_meta ≡ true
    → All IsByte s
    → unmetafy (metafy special s) ≡ s
unmetafy-metafy special s h b =
    unmetafy-bytes (metafy special s) ∙ unmetafy_bytes-metafy special s h b

unescape_fish_bytes-none : (s : Bytes) → index_byte s b'\\' ≡ none → unescape_fish_bytes s ≡ s
unfolding unescape_fish_bytes index_byte
unescape_fish_bytes-none [] h = refl
unescape_fish_bytes-none (c ∷ []) h = refl
unescape_fish_bytes-none (c ∷ d ∷ s) h = ground (arith, unescape_fish_bytes-none (d ∷ s))

unescape_fish-bytes : (s : Bytes) → unescape_fish s ≡ unescape_fish_bytes s
unfolding unescape_fish
unescape_fish-bytes s = elim (Option-cases (index_byte s b'\\')) [
  | inl plain ↦ rw (plain, unescape_fish) (sym (unescape_fish_bytes-none s plain))
  | inr (i, found) ↦ rw (found, unescape_fish) refl
]

unescape_fish_bytes-plain :
    (c : ℕ) (s : Bytes)
    → (c == b'\\') ≡ false
    → unescape_fish_bytes (c ∷ s) ≡ c ∷ unescape_fish_bytes s
unfolding unescape_fish_bytes
unescape_fish_bytes-plain c [] h = refl
unescape_fish_bytes-plain c (d ∷ s) h = rw h refl

unescape_fish_bytes-newline :
    (s : Bytes) → unescape_fish_bytes (b'\\' ∷ b'n' ∷ s) ≡ b'\n' ∷ unescape_fish_bytes s
unfolding unescape_fish_bytes
unescape_fish_bytes-newline s = refl

unescape_fish_bytes-backslash :
    (s : Bytes) → unescape_fish_bytes (b'\\' ∷ b'\\' ∷ s) ≡ b'\\' ∷ unescape_fish_bytes s
unfolding unescape_fish_bytes
unescape_fish_bytes-backslash s = refl

unescape_fish_bytes-escape : (s : Bytes) → unescape_fish_bytes (escape_fish s) ≡ s
unfolding escape_fish
unescape_fish_bytes-escape [] = unfold unescape_fish_bytes in refl
unescape_fish_bytes-escape (c ∷ s) =
    let rest = unescape_fish_bytes-escape s in
    elim (Bool-cases (c == b'\n')) [
      | inl newline ↦ rw newline (
          unescape_fish_bytes-newline (escape_fish s)
          ∙ ap₂ ◌∷◌ (sym ((==_iff c b'\n').0 newline)) rest)
      | inr text ↦ rw text (elim (Bool-cases (c == b'\\')) [
        | inl backslash ↦ rw backslash (
            unescape_fish_bytes-backslash (escape_fish s)
            ∙ ap₂ ◌∷◌ (sym ((==_iff c b'\\').0 backslash)) rest)
        | inr plain ↦ rw plain (unescape_fish_bytes-plain c (escape_fish s) plain ∙ ap (◌∷◌ c) rest)
      ])
    ]

-- `unescapeFish` gives back every text that fish wrote, whatever backslashes, letters n and
-- newlines stand next to one another in it.
pub unescape_fish-escape : (s : Bytes) → unescape_fish (escape_fish s) ≡ s
unescape_fish-escape s = unescape_fish-bytes (escape_fish s) ∙ unescape_fish_bytes-escape s
