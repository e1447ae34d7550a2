-- ===== src/Sync/Files.antt =====
-- internal/sync/storage.go, `FileStorage`: a backend that keeps its objects in a directory. The
-- directory is a table of its files by their paths, without the temporary ones, which a `Put` that
-- is over has renamed; errors of the file system other than a missing file are not modelled.
use shcr.Base.{
  Bool, true, false, not, ◌&&◌, ◌||◌, Option, none, some, List, [], ◌∷◌, ◌++◌, map, if◌then◌else◌,
  ◌==◌, ◌≡◌, refl, sym, ap, ◌∙◌, inl, inr, Bool-cases,
}
use shcr.Base.Bytes.{Bytes, codes, is_empty, bytes_eq, bytes_lt, has_prefix}
use shcr.Base.Sort.{sort}
use shcr.Base.Table.{Table, lookup, upsert, lookup-upsert}
use shcr.Store.Stats.{distinct}
use shcr.Store.Queries.{filter}
use shcr.Store.Candidates.{trim_slash}
use shcr.Sync.Keys.{slash, base_name}
use shcr.Sync.Pull.{Fetched}
use shcr.Sync.Push.{Storage}

-- The parts between the slashes of a path.
unfoldable pub segments : Bytes → List Bytes
segments [] = [] ∷ []
segments (c ∷ s) =
    let rest = segments s in
    if c == slash
    then [] ∷ rest
    else elim rest [ [] ↦ (c ∷ []) ∷ [] | part ∷ parts ↦ (c ∷ part) ∷ parts ]

-- `filepath.Clean` leaves a path with a slash in front as it is if none of its parts is empty, a dot
-- or two dots.
unfoldable pub all_clean : List Bytes → Bool
all_clean [] = true
all_clean (part ∷ parts) =
    not (is_empty part || bytes_eq part (codes ".") || bytes_eq part (codes ".."))
    && all_clean parts

-- `path`, below the root.
unfoldable pub object_path : Bytes → Option Bytes
unfolding segments all_clean trim_slash
object_path key =
    let trimmed = trim_slash key in
    if is_empty key || has_prefix key (slash ∷ []) || is_empty trimmed
    then none
    else if all_clean (segments trimmed)
    then some trimmed
    else none

abbrev fetched : Option Bytes → Fetched
fetched none = Fetched.not_exist
fetched (some content) = Fetched.found content

unfoldable pub file_get : Table Bytes → Bytes → Fetched
unfolding lookup
file_get files key = elim (object_path key) [
  | none ↦ Fetched.broken
  | some path ↦ fetched (lookup path files)
]

unfoldable pub file_put : Table Bytes → Bytes → Bytes → Table Bytes × Bool
unfolding upsert
file_put files key content = elim (object_path key) [
  | none ↦ (files, false)
  | some path ↦ (upsert path content files, true)
]

abbrev is_temporary : Bytes → Bool
is_temporary path = has_prefix (base_name path) (codes ".tmp-")

abbrev paths_of : Table Bytes → List Bytes
paths_of files = map (λ (file : Bytes × Bytes). file.0) files

unfoldable pub file_list : Table Bytes → Bytes → Bytes → Option (List Bytes)
unfolding object_path filter
file_list files prefix after = elim (object_path prefix) [
  | none ↦ none
  | some _ ↦ some (
      sort bytes_lt (
        filter (λ path. not (is_temporary path) && has_prefix path prefix && bytes_lt after path)
          (paths_of files)))
]

-- What is behind a prefix.
unfoldable pub behind : Bytes → Bytes → Bytes
behind [] path = path
behind (c ∷ prefix) [] = []
behind (c ∷ prefix) (d ∷ path) = behind prefix path

-- The subdirectory of `dir` that a path goes through.
unfoldable pub child_of : Bytes → Bytes → Option Bytes
unfolding segments behind
child_of dir path =
    if has_prefix path (dir ++ slash ∷ [])
    then elim (segments (behind (dir ++ slash ∷ []) path)) [
      | [] ↦ none
      | part ∷ parts ↦ elim parts [ [] ↦ none | _ ∷ _ ↦ some part ]
    ]
    else none

unfoldable pub children_in : Bytes → List Bytes → List Bytes
unfolding child_of
children_in dir [] = []
children_in dir (path ∷ paths) =
    let rest = children_in dir paths in
    elim (child_of dir path) [
      | none ↦ rest
      | some part ↦ if has_prefix part (codes ".tmp-") then rest else part ∷ rest
    ]

unfoldable pub file_children : Table Bytes → Bytes → Option (List Bytes)
unfolding object_path children_in distinct
file_children files prefix = elim (object_path prefix) [
  | none ↦ none
  | some dir ↦ some (sort bytes_lt (distinct (children_in dir (paths_of files))))
]

-- `FileStorage` as the engine sees it.
unfoldable pub file_storage : Storage (Table Bytes)
unfolding file_get file_put file_list file_children
file_storage = record {
  reader = λ files. record {
    get = file_get files;
    list = file_list files;
    children = file_children files;
  };
  put = file_put;
}

-- The keys of batches and manifests do not end in a slash.
abbrev IsPlain : Bytes → Type 0
IsPlain key = object_path key ≡ some key

file_get-plain :
    (files : Table Bytes) (key : Bytes)
    → IsPlain key
    → file_get files key ≡ fetched (lookup key files)
unfolding file_get
file_get-plain files key plain = rw (plain, file_get) refl

file_put-plain :
    (files : Table Bytes) (key content : Bytes)
    → IsPlain key
    → file_put files key content ≡ (upsert key content files, true)
unfolding file_put
file_put-plain files key content plain = rw (plain, file_put) refl

-- What was put is got, and nothing else has changed, for keys that are paths as they stand.
file_get-file_put :
    (files : Table Bytes) (key other content : Bytes)
    → IsPlain key
    → IsPlain other
    → file_get (file_put files key content).0 other
      ≡ (if bytes_eq key other then Fetched.found content else file_get files other)
file_get-file_put files key other content plain plain' =
    let put = ap (λ r. file_get r.0 other) (file_put-plain files key content plain) in
    let got = file_get-plain (upsert key content files) other plain' in
    let before = file_get-plain files other plain' in
    put
    ∙ got
    ∙ ap fetched (lookup-upsert key other content files)
    ∙ elim (Bool-cases (bytes_eq key other)) [
      | inl same ↦ rw same refl
      | inr differ ↦ rw differ (sym before)
    ]
