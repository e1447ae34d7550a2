-- ===== src/Base/Table.antt =====
-- A table with a text primary key: the rows in the order of their insertion.
use mathlib.Core.Path.{◌≡◌, refl}
use mathlib.Core.Option.{Option, none, some}
use mathlib.Core.List.{List, [], ◌∷◌}
use native.Mathlib.Omega.{arith}
use shcr.Base.Tests.{if◌then◌else◌}
use shcr.Base.Bytes.{Bytes, bytes_eq, bytes_eq_iff}

abbrev pub Table {ℓ} : Type ℓ → Type ℓ
Table V = List (Bytes × V)

module _ {ℓ} {V : Type ℓ} where
  -- SELECT … WHERE key = ?
  unfoldable pub lookup : Bytes → Table V → Option V
  lookup k [] = none
  lookup k ((j, v) ∷ t) = if bytes_eq j k then some v else lookup k t

  -- INSERT … ON CONFLICT(key) DO UPDATE SET …
  unfoldable pub upsert : Bytes → V → Table V → Table V
  upsert k v [] = (k, v) ∷ []
  upsert k v ((j, w) ∷ t) = if bytes_eq j k then (j, v) ∷ t else (j, w) ∷ upsert k v t

  pub lookup-upsert :
      (k j : Bytes) (v : V) (t : Table V)
      → lookup j (upsert k v t) ≡ (if bytes_eq k j then some v else lookup j t)
  unfolding lookup upsert
  lookup-upsert k j v [] = refl
  lookup-upsert k j v ((i, w) ∷ t) =
      ground (arith, bytes_eq_iff k j, bytes_eq_iff i k, bytes_eq_iff i j, lookup-upsert k j v t)
