-- ===== src/Base/Sort.antt =====
-- Insertion sort by a strict order, and that sorted lists with the same members are equal.
use mathlib.Core.Path.{◌≡◌, refl, sym, ap₂, ◌∙◌}
use mathlib.Core.Logic.{◌↔◌, ◌⊎◌, inl, inr}
use mathlib.Core.Bool.{Bool, true, false, false≢true}
use mathlib.Core.List.{List, [], ◌∷◌}
use shcr.Base.Tests.{if◌then◌else◌, Bool-cases}
use shcr.Base.Lists.{In, All, All-In}

module _ {A : Type 0} (lt : A → A → Bool) where
  -- Rows that `lt` does not tell apart keep the order in which they are inserted.
  unfoldable pub insert : A → List A → List A
  insert x [] = x ∷ []
  insert x (y ∷ ys) = if lt x y then x ∷ y ∷ ys else y ∷ insert x ys

  unfoldable pub sort_onto : List A → List A → List A
  sort_onto out [] = out
  sort_onto out (x ∷ xs) = sort_onto (insert x out) xs

  -- ORDER BY
  unfoldable pub sort : List A → List A
  unfolding sort_onto
  sort = sort_onto []

  abbrev pub IsSorted : List A → Type 0
  IsSorted [] = Unit
  IsSorted (x ∷ xs) = All (λ y. lt x y ≡ true) xs × IsSorted xs

  In-insert_cases :
      (a x y : A) (l : List A)
      → In a (insert x (y ∷ l))
      → (a ≡ x) ⊎ (a ≡ y) ⊎ In a l ⊎ In a (insert x l)
  unfolding insert
  In-insert_cases a x y l h = elim (Bool-cases (lt x y)) [
    | inl t ↦
        let h' : In a (x ∷ y ∷ l) = rw t at h in
        elim h' [ inl e ↦ inl e | inr (inl e) ↦ inr (inl e) | inr (inr r) ↦ inr (inr (inl r)) ]
    | inr f ↦
        let h' : In a (y ∷ insert x l) = rw f at h in
        elim h' [ inl e ↦ inr (inl e) | inr r ↦ inr (inr (inr r)) ]
  ]

  pub In-insert : (a x : A) (l : List A) → In a (insert x l) → (a ≡ x) ⊎ In a l
  In-insert a x [] h = unfold insert in h
  In-insert a x (y ∷ l) h = elim (In-insert_cases a x y l h) [
    | inl e ↦ inl e
    | inr (inl e) ↦ inr (inl e)
    | inr (inr (inl r)) ↦ inr (inr r)
    | inr (inr (inr r)) ↦ elim (In-insert a x l r) [ inl e ↦ inl e | inr q ↦ inr (inr q) ]
  ]

  pub insert-In : (a x : A) (l : List A) → (a ≡ x) ⊎ In a l → In a (insert x l)
  unfolding insert
  insert-In a x [] h = h
  insert-In a x (y ∷ l) h = elim (Bool-cases (lt x y)) [
    | inl t ↦ rw t h
    | inr f ↦ rw f (elim h [
      | inl e ↦ inr (insert-In a x l (inl e))
      | inr (inl e) ↦ inl e
      | inr (inr r) ↦ inr (insert-In a x l (inr r))
    ])
  ]

  pub In-sort_onto : (a : A) (out xs : List A) → In a (sort_onto out xs) → In a out ⊎ In a xs
  unfolding sort_onto
  In-sort_onto a out [] h = inl h
  In-sort_onto a out (x ∷ xs) h = elim (In-sort_onto a (insert x out) xs h) [
    | inl l ↦ elim (In-insert a x out l) [ inl e ↦ inr (inl e) | inr q ↦ inl q ]
    | inr r ↦ inr (inr r)
  ]

  pub sort_onto-In : (a : A) (out xs : List A) → In a out ⊎ In a xs → In a (sort_onto out xs)
  unfolding sort_onto
  sort_onto-In a out [] (inl h) = h
  sort_onto-In a out [] (inr h) = absurd h
  sort_onto-In a out (x ∷ xs) (inl h) =
      sort_onto-In a (insert x out) xs (inl (insert-In a x out (inr h)))
  sort_onto-In a out (x ∷ xs) (inr (inl e)) =
      sort_onto-In a (insert x out) xs (inl (insert-In a x out (inl e)))
  sort_onto-In a out (x ∷ xs) (inr (inr h)) = sort_onto-In a (insert x out) xs (inr h)

  -- Sorting keeps the members.
  pub In-sort : (a : A) (xs : List A) → In a (sort xs) ↔ In a xs
  unfolding sort
  In-sort a xs = (
    λ h. elim (In-sort_onto a [] xs h) [ inl l ↦ absurd l | inr r ↦ r ],
    λ h. sort_onto-In a [] xs (inr h),
  )

  pub All-insert : (P : A → Type 0) (x : A) (l : List A) → P x → All P l → All P (insert x l)
  unfolding insert
  All-insert P x [] p h = (p, tt)
  All-insert P x (y ∷ l) p h = elim (Bool-cases (lt x y)) [
    | inl t ↦ rw t (p, h)
    | inr f ↦ rw f (h.0, All-insert P x l p h.1)
  ]

  -- Two items are told apart by the order.
  abbrev pub Apart : A → A → Type 0
  Apart x y = (lt x y ≡ true) ⊎ (lt y x ≡ true)

  abbrev pub AllApart : List A → Type 0
  AllApart [] = Unit
  AllApart (x ∷ xs) = All (Apart x) xs × AllApart xs

  pub record StrictOrder : Type 0 where
    pub irrefl : (a : A) → lt a a ≡ false
    pub trans : (a b c : A) → lt a b ≡ true → lt b c ≡ true → lt a c ≡ true

  module _ (order : StrictOrder) where
    All-below :
        (x y : A) (l : List A)
        → lt x y ≡ true
        → All (λ z. lt y z ≡ true) l
        → All (λ z. lt x z ≡ true) l
    All-below x y [] h k = tt
    All-below x y (z ∷ l) h k = (order.trans x y z h k.0, All-below x y l h k.1)

    insert-IsSorted : (x : A) (l : List A) → All (Apart x) l → IsSorted l → IsSorted (insert x l)
    unfolding insert
    insert-IsSorted x [] a s = (tt, tt)
    insert-IsSorted x (y ∷ l) a s = elim (Bool-cases (lt x y)) [
      | inl t ↦ rw t ((t, All-below x y l t s.0), s)
      | inr f ↦
          let y_below : lt y x ≡ true = elim a.0 [ inl t ↦ cc | inr g ↦ g ] in
          rw f (All-insert (λ z. lt y z ≡ true) x l y_below s.0, insert-IsSorted x l a.1 s.1)
    ]

    Apart-symm : {x y : A} → Apart x y → Apart y x
    Apart-symm (inl h) = inr h
    Apart-symm (inr h) = inl h

    AllApart_insert :
        (x : A) (out xs : List A)
        → All (Apart x) xs
        → All (λ y. All (Apart y) out) xs
        → All (λ y. All (Apart y) (insert x out)) xs
    AllApart_insert x out [] a b = tt
    AllApart_insert x out (y ∷ xs) a b =
        (All-insert (Apart y) x out (Apart-symm a.0) b.0, AllApart_insert x out xs a.1 b.1)

    sort_onto-IsSorted :
        (out xs : List A)
        → IsSorted out
        → AllApart xs
        → All (λ y. All (Apart y) out) xs
        → IsSorted (sort_onto out xs)
    unfolding sort_onto
    sort_onto-IsSorted out [] s a b = s
    sort_onto-IsSorted out (x ∷ xs) s a b =
        sort_onto-IsSorted (insert x out) xs (insert-IsSorted x out b.0 s) a.1
          (AllApart_insert x out xs a.0 b.1)

    All-nil : (xs : List A) → All (λ y. All (Apart y) []) xs
    All-nil [] = tt
    All-nil (x ∷ xs) = (tt, All-nil xs)

    pub sort-IsSorted : (xs : List A) → AllApart xs → IsSorted (sort xs)
    unfolding sort
    sort-IsSorted xs a = sort_onto-IsSorted [] xs tt a (All-nil xs)

    heads_eq :
        (x y : A) (xs ys : List A)
        → All (λ z. lt x z ≡ true) xs
        → All (λ z. lt y z ≡ true) ys
        → In x (y ∷ ys)
        → In y (x ∷ xs)
        → x ≡ y
    heads_eq x y xs ys hx hy (inl e) k = e
    heads_eq x y xs ys hx hy (inr r) (inl e) = sym e
    heads_eq x y xs ys hx hy (inr r) (inr q) = absurd (
        false≢true (
          sym (order.irrefl x)
          ∙ order.trans x y x (All-In (λ z. lt x z ≡ true) y xs hx q)
              (All-In (λ z. lt y z ≡ true) x ys hy r)))

    tail_In :
        (x y a : A) (xs ys : List A)
        → x ≡ y
        → All (λ z. lt x z ≡ true) xs
        → In a xs
        → In a (y ∷ ys)
        → In a ys
    tail_In x y a xs ys e hx h (inr r) = r
    tail_In x y a xs ys e hx h (inl f) =
        let below : lt x a ≡ true = All-In (λ z. lt x z ≡ true) a xs hx h in
        absurd (false≢true (sym (order.irrefl x) ∙ (rw (f ∙ sym e) at below)))

    -- Sorted lists with the same members are equal.
    pub IsSorted-unique :
        (xs ys : List A) → IsSorted xs → IsSorted ys → ((a : A) → In a xs ↔ In a ys) → xs ≡ ys
    IsSorted-unique [] [] s t same = refl
    IsSorted-unique [] (y ∷ ys) s t same = absurd ((same y).1 (inl refl))
    IsSorted-unique (x ∷ xs) [] s t same = absurd ((same x).0 (inl refl))
    IsSorted-unique (x ∷ xs) (y ∷ ys) s t same =
        let e : x ≡ y =
          heads_eq x y xs ys s.0 t.0 ((same x).0 (inl refl)) ((same y).1 (inl refl)) in
        ap₂ ◌∷◌ e (
          IsSorted-unique xs ys s.1 t.1 (λ a. (
            λ h. tail_In x y a xs ys e s.0 h ((same a).0 (inr h)),
            λ h. tail_In y x a ys xs (sym e) t.0 h ((same a).1 (inr h)),
          )))

    -- ORDER BY does not depend on the order of the rows.
    pub sort_unique :
        (xs ys : List A)
        → AllApart xs
        → AllApart ys
        → ((a : A) → In a xs ↔ In a ys)
        → sort xs ≡ sort ys
    sort_unique xs ys s t same =
        IsSorted-unique (sort xs) (sort ys) (sort-IsSorted xs s) (sort-IsSorted ys t) (λ a. (
          λ h. (In-sort a ys).1 ((same a).0 ((In-sort a xs).0 h)),
          λ h. (In-sort a xs).1 ((same a).1 ((In-sort a ys).0 h)),
        ))
