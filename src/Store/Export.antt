-- ===== src/Store/Export.antt =====
-- The list and the export select the same rows.
use shcr.Base.{
  Bool, true, false, List, [], ◌∷◌, ◌++◌, if◌then◌else◌, take, drop, ◌≡◌, ap, inl, inr, arith,
  Bool-cases, In, In-append, In-append_left, In-append_right, All, All-append,
}
use shcr.Base.Bytes.{Bytes, bytes_eq, bytes_eq_iff, bytes_lt_irrefl, bytes_lt_trans, bytes_lt_total}
use shcr.Base.Int.{pos, pos_part, leb_ℤ}
use shcr.Base.Sort.{
  sort, IsSorted, Apart, AllApart, StrictOrder, IsSorted-unique, sort-IsSorted, In-sort,
}
use shcr.Base.Table.{Table}
use shcr.Store.Types.{Command, Db}
use shcr.Store.Keyed.{Keyed, IsNewKey}
use shcr.Store.Queries.{rows_of, filter, Filter, older, build_where, query_commands, each_command}

abbrev pub reverse : {A : Type 0} → List A → List A
reverse [] = []
reverse (x ∷ xs) = reverse xs ++ x ∷ []

module _ {A : Type 0} where
  In-reverse : (a : A) (xs : List A) → In a (reverse xs) → In a xs
  In-reverse a [] h = h
  In-reverse a (x ∷ xs) h = elim (In-append a (reverse xs) (x ∷ []) h) [
    | inl l ↦ inr (In-reverse a xs l)
    | inr (inl e) ↦ inl e
    | inr (inr q) ↦ absurd q
  ]

  reverse-In : (a : A) (xs : List A) → In a xs → In a (reverse xs)
  reverse-In a (x ∷ xs) (inl e) = In-append_right a (reverse xs) (x ∷ []) (inl e)
  reverse-In a (x ∷ xs) (inr h) = In-append_left a (reverse xs) (x ∷ []) (reverse-In a xs h)
  reverse-In a [] h = h

  All-reverse : (P : A → Type 0) (xs : List A) → All P xs → All P (reverse xs)
  All-reverse P [] h = tt
  All-reverse P (x ∷ xs) h = All-append P (reverse xs) (x ∷ []) (All-reverse P xs h.1) (h.0, tt)

  module _ (lt : A → A → Bool) where
    abbrev flip : A → A → Bool
    flip a b = lt b a

    flip-StrictOrder : StrictOrder lt → StrictOrder flip
    flip-StrictOrder order = record {
      irrefl = order.irrefl;
      trans = λ a b c h k. order.trans c b a k h;
    }

    All-flip : (x : A) (l : List A) → All (Apart lt x) l → All (Apart flip x) l
    All-flip x [] h = tt
    All-flip x (y ∷ l) h = (elim h.0 [ inl a ↦ inr a | inr b ↦ inl b ], All-flip x l h.1)

    flip-AllApart : (l : List A) → AllApart lt l → AllApart flip l
    flip-AllApart [] h = tt
    flip-AllApart (x ∷ l) h = (All-flip x l h.0, flip-AllApart l h.1)

    IsSorted-snoc :
        (l : List A) (x : A)
        → IsSorted flip l
        → All (λ y. lt x y ≡ true) l
        → IsSorted flip (l ++ x ∷ [])
    IsSorted-snoc [] x s h = (tt, tt)
    IsSorted-snoc (y ∷ l) x s h =
        (All-append (λ z. flip y z ≡ true) l (x ∷ []) s.0 (h.0, tt), IsSorted-snoc l x s.1 h.1)

    reverse-IsSorted : (l : List A) → IsSorted lt l → IsSorted flip (reverse l)
    reverse-IsSorted [] s = tt
    reverse-IsSorted (x ∷ l) s =
        IsSorted-snoc (reverse l) x (reverse-IsSorted l s.1)
          (All-reverse (λ y. lt x y ≡ true) l s.0)

    sort-flip : StrictOrder lt → (l : List A) → AllApart lt l → sort flip l ≡ reverse (sort lt l)
    sort-flip order l a =
        IsSorted-unique flip (flip-StrictOrder order) (sort flip l) (reverse (sort lt l))
          (sort-IsSorted flip (flip-StrictOrder order) l (flip-AllApart l a))
          (reverse-IsSorted (sort lt l) (sort-IsSorted lt order l a))
          (λ x. (
            λ h. reverse-In x (sort lt l) ((In-sort lt x l).1 ((In-sort flip x l).0 h)),
            λ h. (In-sort flip x l).1 ((In-sort lt x l).0 (In-reverse x (sort lt l) h)),
          ))

older_order : StrictOrder older
older_order = record {
  irrefl = λ a. ground (arith, bytes_lt_irrefl a.id);
  trans = λ a b c h k. ground (arith, bytes_lt_trans a.id b.id c.id);
}

older-Apart : (a b : Command) → bytes_eq a.id b.id ≡ false → Apart older a b
older-Apart a b h = ground (arith, bytes_eq_iff a.id b.id, bytes_lt_total a.id b.id)

rows-Apart :
    (c : Command) (rows : Table Command)
    → IsNewKey c.id rows
    → Keyed rows
    → All (Apart older c) (rows_of rows)
rows-Apart c [] new h = tt
rows-Apart c ((k, d) ∷ rows) new h = (older-Apart c d (rw h.0 new.0), rows-Apart c rows new.1 h.2)

rows-AllApart : (rows : Table Command) → Keyed rows → AllApart older (rows_of rows)
rows-AllApart [] h = tt
rows-AllApart ((k, c) ∷ rows) h = (rows-Apart c rows (rw h.0 h.1) h.2, rows-AllApart rows h.2)

All-filter :
    {A : Type 0} (P : A → Type 0) (wanted : A → Bool) (l : List A)
    → All P l
    → All P (filter wanted l)
unfolding filter
All-filter P wanted [] h = tt
All-filter P wanted (x ∷ l) h = elim (Bool-cases (wanted x)) [
  | inl kept ↦ rw kept (h.0, All-filter P wanted l h.1)
  | inr left ↦ rw left (All-filter P wanted l h.1)
]

filter-AllApart :
    {A : Type 0} (lt : A → A → Bool) (wanted : A → Bool) (l : List A)
    → AllApart lt l
    → AllApart lt (filter wanted l)
unfolding filter
filter-AllApart lt wanted [] h = tt
filter-AllApart lt wanted (x ∷ l) h = elim (Bool-cases (wanted x)) [
  | inl kept ↦ rw kept (All-filter (Apart lt x) wanted l h.0, filter-AllApart lt wanted l h.1)
  | inr left ↦ rw left (filter-AllApart lt wanted l h.1)
]

-- A page of the list is the page of the rows that an export with the same filter writes, read from
-- its end; where each row stands under its own id.
pub query_commands-each_command :
    (matches : Bytes → Bytes → Bool) (db : Db) (f : Filter)
    → Keyed db.commands
    → query_commands matches db f
      ≡ take
          (if leb_ℤ f.limit (pos 0) then 100 else pos_part f.limit)
          (drop (pos_part f.offset) (reverse (each_command matches db f)))
unfolding query_commands each_command
query_commands-each_command matches db f keyed =
    ap
      (λ rows.
        take (if leb_ℤ f.limit (pos 0) then 100 else pos_part f.limit)
          (drop (pos_part f.offset) rows))
      (sort-flip older older_order (filter (build_where matches db f) (rows_of db.commands)) (
        filter-AllApart older (build_where matches db f) (rows_of db.commands)
          (rows-AllApart db.commands keyed)))
