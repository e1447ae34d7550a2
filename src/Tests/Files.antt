-- ===== src/Tests/Files.antt =====
-- A directory with two devices.
use shcr.Base.{true, none, some, [], ◌∷◌, ◌≡◌, refl}
use shcr.Base.Bytes.{Bytes, codes, bytes_eq, bytes_lt, has_prefix}
use shcr.Base.Sort.{sort, insert}
use shcr.Base.Table.{Table, upsert}
use shcr.Store.Stats.{distinct, has_text}
use shcr.Store.Queries.{filter}
use shcr.Store.Candidates.{trim_slash}
use shcr.Sync.Keys.{base_from}
use shcr.Sync.Files.{
  object_path, segments, all_clean, file_put, file_list, file_children, children_in, child_of,
  behind,
}

abbrev bucket : Table Bytes
bucket =
    (codes "devices/b/manifest.json", codes "m")
    ∷ (codes "devices/b/batches/2", codes "y")
    ∷ (codes "devices/b/batches/1", codes "x")
    ∷ (codes "devices/a/manifest.json", codes "n")
    ∷ []

keys_refused :
    (object_path (codes "devices/../x") ≡ none)
    × (object_path (codes "/devices") ≡ none)
    × (object_path (codes "devices//a") ≡ none)
    × (object_path [] ≡ none)
unfolding object_path segments all_clean trim_slash has_prefix bytes_eq
keys_refused = (refl, refl, refl, refl)

-- A slash at the end of a key is dropped.
slash_dropped :
    file_put [] (codes "devices/a/") (codes "z") ≡ ((codes "devices/a", codes "z") ∷ [], true)
unfolding file_put object_path segments all_clean trim_slash has_prefix bytes_eq upsert
slash_dropped = refl

listed :
    file_list bucket (codes "devices/b/batches/") (codes "devices/b/batches/1")
    ≡ some (codes "devices/b/batches/2" ∷ [])
unfolding file_list object_path segments all_clean trim_slash has_prefix bytes_eq filter sort insert
    bytes_lt base_from
listed = refl

devices : file_children bucket (codes "devices") ≡ some (codes "a" ∷ codes "b" ∷ [])
unfolding file_children children_in child_of behind object_path segments all_clean trim_slash
    has_prefix bytes_eq sort insert bytes_lt distinct has_text
devices = refl
