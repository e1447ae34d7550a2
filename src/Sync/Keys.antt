-- ===== src/Sync/Keys.antt =====
-- internal/sync/engine.go: the names of objects. Go's formatting and parsing of time, with the
-- layout of a batch, are parameters; a time is in nanoseconds since 1970.
use shcr.Base.{ℕ, ◌+◌, ◌*◌, ◌/◌, Option, none, some, [], ◌∷◌, ◌++◌, if◌then◌else◌, ◌==◌, leb}
use shcr.Base.Bytes.{Bytes, codes, is_empty}

abbrev pub slash : ℕ
slash = 47

abbrev pub underscore : ℕ
underscore = 95

unfoldable pub manifest_key : Bytes → Bytes
manifest_key device = codes "devices/" ++ (device ++ codes "/manifest.json")

unfoldable pub batch_prefix : Bytes → Bytes
batch_prefix device = codes "devices/" ++ (device ++ codes "/batches/")

-- What follows the last '/' of the second text, where the first is what follows the last so far:
-- `key[strings.LastIndex(key, "/")+1:]`.
unfoldable pub base_from : Bytes → Bytes → Bytes
base_from base [] = base
base_from base (c ∷ s) = base_from (if c == slash then s else base) s

abbrev pub base_name : Bytes → Bytes
base_name key = base_from key key

-- The part before the first '_': `strings.Cut(base, "_")`.
unfoldable pub cut : Bytes → Option Bytes
cut [] = none
cut (c ∷ s) =
    let rest = cut s in
    if c == underscore then some [] else elim rest [ none ↦ none | some stamp ↦ some (c ∷ stamp) ]

abbrev pub millisecond : ℕ
millisecond = 1000000

-- `Truncate(time.Millisecond)`
unfoldable pub truncate_ms : ℕ → ℕ
truncate_ms t = t / millisecond * millisecond

-- `Format` and `time.Parse` with the layout.
pub record TimeLayout : Type 0 where
  pub format : ℕ → Bytes
  pub parse : Bytes → Option ℕ

module _ (layout : TimeLayout) where
  unfoldable pub batch_key_time : Bytes → Option ℕ
  unfolding base_from cut
  batch_key_time key =
      if is_empty key
      then none
      else elim (cut (base_name key)) [ none ↦ none | some stamp ↦ layout.parse stamp ]

  -- The time that is written: the clock's full millisecond, or one millisecond behind that of the
  -- previous key where the clock's is not later than it.
  unfoldable pub key_time : ℕ → Bytes → ℕ
  unfolding batch_key_time truncate_ms
  key_time now previous = elim (batch_key_time previous) [
    | none ↦ truncate_ms now
    | some prev ↦ if leb (truncate_ms now) prev then prev + millisecond else truncate_ms now
  ]

  -- `newBatchKey` behind the draw of the suffix, which is the text of its four hexadecimal digits.
  unfoldable pub new_batch_key : Bytes → Bytes → ℕ → Bytes → Bytes
  unfolding key_time batch_prefix
  new_batch_key device suffix now previous =
      batch_prefix device
      ++ (layout.format (key_time now previous) ++ (codes "_" ++ (suffix ++ codes ".jsonl.enc")))
