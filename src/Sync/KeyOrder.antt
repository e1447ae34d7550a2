-- ===== src/Sync/KeyOrder.antt =====
-- The batch keys of a device sort in the order in which it publishes them, whatever its clock does.
use shcr.Base.{
  ℕ, ◌≤◌, ◌<◌, true, some, [], ◌∷◌, ◌++◌, append_assoc, length, if◌then◌else◌, ◌==◌, leb,
  Bool-cases, inl, inr, ◌≡◌, ◌≢◌, refl, sym, ◌∙◌, arith, All, All-append,
}
use shcr.Base.Bytes.{Bytes, codes, bytes_lt, bytes_lt-append}
use shcr.Sync.Keys.{
  slash, underscore, batch_prefix, base_from, cut, TimeLayout, batch_key_time, key_time,
  new_batch_key, truncate_ms,
}

abbrev pub Without : ℕ → Bytes → Type 0
Without c s = All (λ d. d ≢ c) s

base_from-Without : (base s : Bytes) → Without slash s → base_from base s ≡ base
unfolding base_from
base_from-Without base [] h = refl
base_from-Without base (c ∷ s) h = ground (arith, h.0, base_from-Without base s h.1)

base_from-append : (base p s : Bytes) → Without slash s → base_from base (p ++ slash ∷ s) ≡ s
unfolding base_from
base_from-append base [] s h = base_from-Without s s h
base_from-append base (c ∷ p) s h =
    base_from-append (if c == slash then p ++ slash ∷ s else base) p s h

cut-append :
    (stamp s : Bytes) → Without underscore stamp → cut (stamp ++ underscore ∷ s) ≡ some stamp
unfolding cut
cut-append [] s h = refl
cut-append (c ∷ stamp) s h = ground (arith, h.0, cut-append stamp s h.1)

-- Texts of one length are compared before what follows them.
bytes_lt-front :
    (a b s t : Bytes)
    → length a ≡ length b
    → bytes_lt a b ≡ true
    → bytes_lt (a ++ s) (b ++ t) ≡ true
unfolding bytes_lt
bytes_lt-front [] [] s t e h = cc h
bytes_lt-front [] (y ∷ b) s t e h = absurd (omega arith)
bytes_lt-front (x ∷ a) [] s t e h = absurd (omega arith)
bytes_lt-front (x ∷ a) (y ∷ b) s t e h = ground (arith, bytes_lt-front a b s t (omega arith))

-- What the layout "2006-01-02T15-04-05.000Z" has for the times up to `last`, the end of the year
-- 9999: all stamps are of one length, those of a later millisecond sort behind, and parsing reads
-- back the full millisecond of what was formatted.
pub record LayoutLaws (layout : TimeLayout) (last : ℕ) : Type 0 where
  pub parse_format : (t : ℕ) → t ≤ last → layout.parse (layout.format t) ≡ some (truncate_ms t)
  pub same_length :
      (t u : ℕ) → t ≤ last → u ≤ last → length (layout.format t) ≡ length (layout.format u)
  pub in_order :
      (t u : ℕ)
      → truncate_ms t < truncate_ms u
      → u ≤ last
      → bytes_lt (layout.format t) (layout.format u) ≡ true
  pub no_slash : (t : ℕ) → t ≤ last → Without slash (layout.format t)
  pub no_underscore : (t : ℕ) → t ≤ last → Without underscore (layout.format t)

module _ (layout : TimeLayout) (last : ℕ) (laws : LayoutLaws layout last) where
  abbrev name_of : ℕ → Bytes → Bytes
  name_of t suffix = layout.format t ++ underscore ∷ (suffix ++ codes ".jsonl.enc")

  name_of-Without :
      (t : ℕ) (suffix : Bytes) → t ≤ last → Without slash suffix → Without slash (name_of t suffix)
  name_of-Without t suffix le h =
      All-append (λ d. d ≢ slash) (layout.format t) (underscore ∷ (suffix ++ codes ".jsonl.enc"))
        (laws.no_slash t le)
        (ground arith, All-append (λ d. d ≢ slash) suffix (codes ".jsonl.enc") h (ground arith))

  base_of_key :
      (base device name : Bytes)
      → Without slash name
      → base_from base ((device ++ codes "/batches/") ++ name) ≡ name
  base_of_key base device name h =
      let e : (device ++ codes "/batches/") ++ name ≡ (device ++ codes "/batches") ++ slash ∷ name =
        append_assoc device (codes "/batches/") name
        ∙ sym (append_assoc device (codes "/batches") (slash ∷ name)) in
      rw e (base_from-append base (device ++ codes "/batches") name h)

  batch_key_time-new_batch_key :
      (device suffix previous : Bytes) (now : ℕ)
      → key_time layout now previous ≤ last
      → Without slash suffix
      → batch_key_time layout (new_batch_key layout device suffix now previous)
        ≡ some (truncate_ms (key_time layout now previous))
  unfolding batch_key_time new_batch_key batch_prefix
  batch_key_time-new_batch_key device suffix previous now le h =
      let t = key_time layout now previous in
      let key = new_batch_key layout device suffix now previous in
      let e : base_from key key ≡ name_of t suffix =
        base_of_key key (codes "devices/" ++ device) (name_of t suffix)
          (name_of-Without t suffix le h) in
      rw e (
        rw (cut-append (layout.format t) (suffix ++ codes ".jsonl.enc") (laws.no_underscore t le))
          (laws.parse_format t le))

  key_time-rises :
      (now : ℕ) (key : Bytes) (t : ℕ)
      → batch_key_time layout key ≡ some (truncate_ms t)
      → truncate_ms t < truncate_ms (key_time layout now key)
  unfolding key_time
  key_time-rises now key t e = elim (Bool-cases (leb (truncate_ms now) (truncate_ms t))) [
    | inl not_later ↦ rw (e, not_later, key_time) (unfold truncate_ms in omega arith)
    | inr later ↦ rw (e, later, key_time) (unfold truncate_ms in ground (arith, later))
  ]

  -- The clock may stand or step back between two batches: the later key still sorts behind the
  -- earlier one, as long as the time written stays in the years that the layout can write.
  pub new_batch_key_rises :
      (device suffix suffix' previous : Bytes) (now now' : ℕ)
      → Without slash suffix
      → key_time layout now previous ≤ last
      → key_time layout now' (new_batch_key layout device suffix now previous) ≤ last
      → bytes_lt (new_batch_key layout device suffix now previous) (
          new_batch_key layout device suffix' now'
            (new_batch_key layout device suffix now previous))
        ≡ true
  unfolding new_batch_key
  new_batch_key_rises device suffix suffix' previous now now' h le le' =
      let key = new_batch_key layout device suffix now previous in
      let t = key_time layout now previous in
      let t' = key_time layout now' key in
      let later : truncate_ms t < truncate_ms t' =
        key_time-rises now' key t (batch_key_time-new_batch_key device suffix previous now le h) in
      bytes_lt-append (batch_prefix device) (name_of t suffix) (name_of t' suffix')
      ∙ bytes_lt-front (layout.format t) (layout.format t')
          (underscore ∷ (suffix ++ codes ".jsonl.enc"))
          (underscore ∷ (suffix' ++ codes ".jsonl.enc")) (laws.same_length t t' le le')
          (laws.in_order t t' later le')
