-- ===== src/Sync/Gcs/Names.antt =====
-- internal/sync/gcs.go: the names of objects and the keys of callers.
use shcr.Base.{
  Bool, true, false, not, ◌&&◌, Option, none, some, List, [], ◌∷◌, ◌++◌, map, ◌≡◌, refl, ap, ◌∙◌,
  inl, inr, arith, Bool-cases, if◌then◌else◌,
}
use shcr.Base.Bytes.{Bytes, bytes_lt, bytes_lt_irrefl, bytes_lt_trans, bytes_lt-append, has_prefix}
use mathlib.Core.List.{map-append}
use shcr.Store.Queries.{filter}
use shcr.Sync.Files.{behind}
use shcr.Sync.Gcs.{Query, Page, trim_prefix, listed_keys, list_query, offset_of}

has_prefix-append : (p k q : Bytes) → has_prefix (p ++ k) (p ++ q) ≡ has_prefix k q
unfolding has_prefix
has_prefix-append [] k q = refl
has_prefix-append (x ∷ p) k q = ground (arith, has_prefix-append p k q)

has_prefix-longer : (s p q : Bytes) → has_prefix s p ≡ false → has_prefix s (p ++ q) ≡ false
unfolding has_prefix
has_prefix-longer s [] q h = absurd (ground (arith, h))
has_prefix-longer [] (x ∷ p) q h = refl
has_prefix-longer (c ∷ s) (x ∷ p) q h = ground (arith, has_prefix-longer s p q)

prefix-behind : (s p : Bytes) → has_prefix s p ≡ true → s ≡ p ++ behind p s
unfolding has_prefix behind
prefix-behind s [] h = refl
prefix-behind [] (x ∷ p) h = absurd (ground (arith, h))
prefix-behind (c ∷ s) (x ∷ p) h =
    let both : (c ≡ x) × (has_prefix s p ≡ true) = ground (arith, h) in
    rw both.0 (ap (◌∷◌ x) (prefix-behind s p both.1))

filter-append :
    {A : Type 0} (wanted : A → Bool) (l m : List A)
    → filter wanted (l ++ m) ≡ filter wanted l ++ filter wanted m
unfolding filter
filter-append wanted [] m = refl
filter-append wanted (x ∷ l) m = elim (Bool-cases (wanted x)) [
  | inl kept ↦ rw kept (ap (◌∷◌ x) (filter-append wanted l m))
  | inr dropped ↦ rw dropped (filter-append wanted l m)
]

-- What a bucket answers: the names that have the prefix and are not in front of the offset.
abbrev not_before : Option Bytes → Bytes → Bool
not_before none name = true
not_before (some offset) name = not (bytes_lt name offset)

abbrev pub is_listed : Query → Bytes → Bool
is_listed query name = has_prefix name query.prefix && not_before query.start_offset name

unfoldable pub all_items : List Page → List Bytes
all_items [] = []
all_items (page ∷ pages) = page.items ++ all_items pages

-- The keys of the objects below a root.
unfoldable pub keys_below : Bytes → List Bytes → List Bytes
unfolding behind
keys_below root [] = []
keys_below root (name ∷ names) =
    let rest = keys_below root names in
    if has_prefix name root then behind root name ∷ rest else rest

abbrev pub names_of : Bytes → List Bytes → List Bytes
names_of root names = map (λ name. trim_prefix name root) names

pub listed_keys-all_items :
    (root after : Bytes) (pages : List Page)
    → listed_keys root after pages ≡ filter (bytes_lt after) (names_of root (all_items pages))
unfolding listed_keys all_items
listed_keys-all_items root after [] = unfold filter in refl
listed_keys-all_items root after (page ∷ pages) =
    rw
      (
        listed_keys-all_items root after pages,
        map-append (λ name. trim_prefix name root) page.items (all_items pages),
        filter-append (bytes_lt after) (names_of root page.items) (names_of root (all_items pages)),
      )
      refl

-- An offset in front of a key leaves the key in the listing.
offset_admits :
    (root after key : Bytes)
    → bytes_lt after key ≡ true
    → not_before (offset_of root after) (root ++ key) ≡ true
offset_admits root [] key h = refl
offset_admits root (c ∷ after) key h =
    let same = bytes_lt-append root key (c ∷ after) in
    elim (Bool-cases (bytes_lt key (c ∷ after))) [
      | inl back ↦
          let cycle = bytes_lt_trans (c ∷ after) key (c ∷ after) h back in
          absurd (ground (arith, cycle, bytes_lt_irrefl (c ∷ after)))
      | inr front ↦ rw (same, front) refl
    ]

trim_prefix-behind :
    (name root : Bytes) → has_prefix name root ≡ true → trim_prefix name root ≡ behind root name
unfolding trim_prefix
trim_prefix-behind name root h = rw h refl

has_prefix-below :
    (name root prefix : Bytes)
    → has_prefix name root ≡ true
    → has_prefix name (root ++ prefix) ≡ has_prefix (behind root name) prefix
has_prefix-below name root prefix h =
    ap (λ n. has_prefix n (root ++ prefix)) (prefix-behind name root h)
    ∙ has_prefix-append root (behind root name) prefix

-- What is kept of one name, told from its key.
abbrev kept_of : Bytes → Bytes → Bytes → Bytes → Bool
kept_of root prefix after name =
    is_listed (list_query root prefix after) name && bytes_lt after (trim_prefix name root)

kept_of-key :
    (root prefix after name : Bytes)
    → kept_of root prefix after name ≡ (
        has_prefix name root
        && (has_prefix (behind root name) prefix && bytes_lt after (behind root name)))
unfolding list_query
kept_of-key root prefix after name = elim (Bool-cases (has_prefix name root)) [
  | inr outside ↦ rw (outside, has_prefix-longer name root prefix outside) refl
  | inl inside ↦
      let key = behind root name in
      rw (inside, has_prefix-below name root prefix inside, trim_prefix-behind name root inside)
        (elim (Bool-cases (bytes_lt after key)) [
          | inl later ↦
              let admitted : not_before (offset_of root after) name ≡ true =
                ap (not_before (offset_of root after)) (prefix-behind name root inside)
                ∙ offset_admits root after key later in
              rw (later, admitted) (ground arith)
          | inr earlier ↦ rw earlier (ground arith)
        ])
]

pub filter_twice :
    (root prefix after : Bytes) (names : List Bytes)
    → filter
        (bytes_lt after)
        (names_of root (filter (is_listed (list_query root prefix after)) names))
      ≡ names_of root (filter (kept_of root prefix after) names)
unfolding filter
filter_twice root prefix after [] = refl
filter_twice root prefix after (name ∷ names) =
    let rest = filter_twice root prefix after names in
    elim (Bool-cases (is_listed (list_query root prefix after) name)) [
      | inr dropped ↦ rw dropped rest
      | inl listed ↦ rw listed (elim (Bool-cases (bytes_lt after (trim_prefix name root))) [
        | inl later ↦ rw later (ap (◌∷◌ (trim_prefix name root)) rest)
        | inr earlier ↦ rw earlier rest
      ])
    ]

pub keys_agree :
    (root prefix after : Bytes) (names : List Bytes)
    → names_of root (filter (kept_of root prefix after) names)
      ≡ filter (λ key. has_prefix key prefix && bytes_lt after key) (keys_below root names)
unfolding filter keys_below
keys_agree root prefix after [] = refl
keys_agree root prefix after (name ∷ names) =
    let rest = keys_agree root prefix after names in
    let key = behind root name in
    let kept = kept_of-key root prefix after name in
    elim (Bool-cases (has_prefix name root)) [
      | inr outside ↦ rw (kept, outside) rest
      | inl inside ↦
          rw (kept, inside)
            (elim (Bool-cases (has_prefix key prefix && bytes_lt after key)) [
              | inl wanted ↦ rw (wanted, trim_prefix-behind name root inside) (ap (◌∷◌ key) rest)
              | inr unwanted ↦ rw unwanted rest
            ])
    ]
