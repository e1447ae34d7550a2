-- ===== src/Histfile/Kept.antt =====
-- `approximateUndated` dates what is undated, and changes nothing else.
use shcr.Base.{
  ℕ, zero, suc, ◌+◌, ◌≤◌, Bool, true, Option, none, some, List, [], ◌∷◌, ◌++◌, length,
  length-append, if◌then◌else◌, ◌≡◌, refl, ap, subst, arith, inl, inr, Bool-cases,
}
use shcr.Base.Int.{ℤ, pos, eqb_ℤ}
use shcr.Histfile.Entries.{Entry}
use shcr.Histfile.Undated.{
  run_window, date_run, undated_run, upper_of, last_time, approximate_from, approximate_undated,
}

abbrev is_undated : Entry → Bool
is_undated e = eqb_ℤ e.start_time (pos 0)

-- What becomes of one entry.
abbrev pub Kept : Entry → Entry → Type 0
Kept e e' =
    if eqb_ℤ e.start_time (pos 0)
    then (e'.command ≡ e.command) × (e'.duration_ms ≡ e.duration_ms) × (e'.approximate ≡ true)
    else e' ≡ e

abbrev pub AllKept : List Entry → List Entry → Type 0
AllKept [] [] = Unit
AllKept (e ∷ es) (e' ∷ es') = Kept e e' × AllKept es es'
AllKept _ _ = ⊥

AllKept-append :
    (xs xs' ys ys' : List Entry) → AllKept xs xs' → AllKept ys ys' → AllKept (xs ++ ys) (xs' ++ ys')
AllKept-append [] [] ys ys' h k = k
AllKept-append (x ∷ xs) (x' ∷ xs') ys ys' h k = (h.0, AllKept-append xs xs' ys ys' h.1 k)
AllKept-append [] (x' ∷ xs') ys ys' h k = absurd h
AllKept-append (x ∷ xs) [] ys ys' h k = absurd h

AllUndated : List Entry → Type 0
AllUndated [] = Unit
AllUndated (e ∷ es) = (is_undated e ≡ true) × AllUndated es

date_run-AllKept :
    (lower step : ℤ) (k : ℕ) (es : List Entry)
    → AllUndated es
    → AllKept es (date_run lower step k es)
unfolding date_run AllUndated
date_run-AllKept lower step k [] h = tt
date_run-AllKept lower step k (e ∷ es) h =
    (rw h.0 (refl, refl, refl), date_run-AllKept lower step (k + 1) es h.1)

undated_run-append : (es : List Entry) → (undated_run es).0 ++ (undated_run es).1 ≡ es
unfolding undated_run
undated_run-append [] = refl
undated_run-append (e ∷ es) = ground (arith, undated_run-append es)

undated_run-AllUndated : (es : List Entry) → AllUndated (undated_run es).0
unfolding undated_run AllUndated
undated_run-AllUndated [] = tt
undated_run-AllUndated (e ∷ es) = elim (Bool-cases (is_undated e)) [
  | inl undated ↦ rw undated (undated, undated_run-AllUndated es)
  | inr dated ↦ rw dated tt
]

undated_run-shorter :
    (e : Entry) (es : List Entry)
    → is_undated e ≡ true
    → length (undated_run (e ∷ es)).1 ≤ length es
unfolding undated_run
undated_run-shorter e es h = ground (
  arith,
  ap (length {A = Entry}) (undated_run-append es),
  length-append (undated_run es).0 (undated_run es).1,
)

approximate_from-AllKept :
    (fuel : ℕ) (prev : Option ℤ) (es : List Entry) (end : ℤ)
    → length es ≤ fuel
    → AllKept es (approximate_from fuel prev es end)
unfolding approximate_from
approximate_from-AllKept zero prev [] end h = tt
approximate_from-AllKept zero prev (e ∷ es) end h = absurd (omega arith)
approximate_from-AllKept (suc fuel) prev [] end h = tt
approximate_from-AllKept (suc fuel) prev (e ∷ es) end h = elim (Bool-cases (is_undated e)) [
  | inl undated ↦
      let run = (undated_run (e ∷ es)).0 in
      let rest = (undated_run (e ∷ es)).1 in
      let window = run_window prev (upper_of end rest) (length run) in
      let filled = date_run window.0 window.1 0 run in
      rw undated (
        subst
          (λ all. AllKept all (filled ++ approximate_from fuel (last_time prev filled) rest end))
          (undated_run-append (e ∷ es))
          (AllKept-append run filled rest (approximate_from fuel (last_time prev filled) rest end)
            (date_run-AllKept window.0 window.1 0 run (undated_run-AllUndated (e ∷ es)))
            (approximate_from-AllKept fuel (last_time prev filled) rest end
              (omega (arith, undated_run-shorter e es undated)))))
  | inr dated ↦
      rw dated
        (rw dated refl, approximate_from-AllKept fuel (some e.start_time) es end (omega arith))
]

-- An entry with a time comes out as it was, in its place; one without keeps its command and its
-- duration, and is flagged as approximate. No entry is lost, added or moved.
pub approximate_undated-AllKept :
    (entries : List Entry) (end : ℤ) → AllKept entries (approximate_undated entries end)
unfolding approximate_undated
approximate_undated-AllKept entries end =
    approximate_from-AllKept (length entries) none entries end (omega arith)
