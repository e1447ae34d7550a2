-- ===== src/Theme/Wrap.antt =====
-- internal/theme/format.go, `Wrap`: a text in lines of a width. The rounds of the loop that cuts a
-- long word are bounded by its length, since each but the last takes at least one rune.
use shcr.Base.{
  ℕ, zero, suc, ◌+◌, ◌-◌, Bool, true, false, ◌&&◌, ◌||◌, List, [], ◌∷◌, ◌++◌, if◌then◌else◌, ◌==◌,
  ltb, leb, length, drop,
}
use shcr.Base.Bytes.{Bytes, is_empty}
use shcr.Base.Int.{ℤ, pos, pos_part}
use shcr.Theme.{Segments, safe, sanitize, cut_to, split_keeping_spaces}

-- The variables of the loop: the lines so far, the current one and its columns, and whether the
-- largest number of lines has been reached.
pub record Lines : Type 0 where
  pub out : List Bytes
  pub cur : Bytes
  pub used : ℕ
  pub full : Bool

abbrev no_lines : Lines
no_lines = record { out = []; cur = []; used = 0; full = false }

-- `flush`
unfoldable pub flush : ℕ → Lines → Lines
flush max_lines st =
    let out = st.out ++ st.cur ∷ [] in
    record { out = out; cur = []; used = 0; full = ltb 0 max_lines && leb max_lines (length out) }

-- `strings.TrimSpace(word) == ""`, by the white space of Unicode.
unfoldable pub all_space : (ℕ → Bool) → Bytes → Bool
all_space is_space [] = true
all_space is_space (c ∷ word) = is_space c && all_space is_space word

-- `width` is `Width` of theme.go, the width that lipgloss gives.
module _ (segments : Segments) (width : Bytes → ℕ) (is_space : ℕ → Bool) where
  -- The end of a round: the rest of the word is written.
  unfoldable pub put_word : Lines → Bytes → Lines
  put_word st word = record st { cur = st.cur ++ word; used = st.used + width word }

  -- The loop that cuts a word, on the rounds that are left.
  unfoldable pub cut_word : ℕ → ℕ → ℕ → Lines → Bytes → Lines
  unfolding cut_to flush put_word
  cut_word zero w max_lines st word = put_word st word
  cut_word (suc rounds) w max_lines st word =
      let head = cut_to segments word (pos (w - st.used)) in
      let st' = flush max_lines (record st { cur = st.cur ++ head }) in
      let rest = cut_word rounds w max_lines st' (drop (length head) word) in
      if leb (st.used + width word) w || is_empty head
      then put_word st word
      else if st'.full
      then st'
      else rest

  unfoldable pub wrap_word : ℕ → ℕ → Lines → Bytes → Lines
  unfolding flush cut_word all_space
  wrap_word w max_lines st word =
      let breaks = ltb 0 st.used && ltb w (st.used + width word) in
      let st' = if breaks then flush max_lines st else st in
      if breaks && (st'.full || all_space is_space word)
      then st'
      else cut_word (length word) w max_lines st' word

  -- The loop over the words; a return inside it leaves the lines as they are.
  unfoldable pub wrap_words : ℕ → ℕ → Lines → List Bytes → Lines
  unfolding wrap_word
  wrap_words w max_lines st [] = st
  wrap_words w max_lines st (word ∷ words) =
      let st' = wrap_word w max_lines st word in
      let rest = wrap_words w max_lines st' words in if st'.full then st' else rest

  unfoldable pub wrap : Bytes → ℤ → ℤ → List Bytes
  unfolding wrap_words split_keeping_spaces sanitize
  wrap s w max_lines =
      let columns = pos_part w in
      let st = wrap_words columns (pos_part max_lines) no_lines (split_keeping_spaces (safe s)) in
      if columns == 0 then [] else if st.full then st.out else st.out ++ st.cur ∷ []
