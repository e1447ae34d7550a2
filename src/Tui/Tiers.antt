-- ===== src/Tui/Tiers.antt =====
-- internal/tui/ranking.go: the tier as a gate on the order of the picker's candidates.
use shcr.Base.{ℕ, ◌≤◌, true, false, List, [], ◌∷◌, All, inl, inr, arith, Bool-cases, ◌≡◌}
use shcr.Base.Bytes.{Bytes}
use shcr.Base.Int.{ℤ}
use shcr.Base.Sort.{insert, sort_onto, sort, All-insert}
use shcr.Rank.Outcome.{tier_rank, less}
use shcr.Store.Types.{Db}
use shcr.Store.Stats.{CommandStat}
use shcr.Store.Candidates.{Where}
use shcr.Tui.{Ranking, Candidate, comes_first, sort_scored, ranked_candidates}

module _ {F : Type 0} where
  abbrev NoBetter : Candidate F → Candidate F → Type 0
  NoBetter a b = tier_rank b.tier ≤ tier_rank a.tier

  -- No candidate stands behind one of a worse tier.
  abbrev pub ByTier : List (Candidate F) → Type 0
  ByTier [] = Unit
  ByTier (a ∷ rest) = All (NoBetter a) rest × ByTier rest

module _ {F : Type 0} (ranking : Ranking F) where
  first-NoBetter : (a b : Candidate F) → comes_first ranking a b ≡ true → NoBetter a b
  unfolding less
  first-NoBetter a b h = ground (arith, h)

  behind-NoBetter : (a b : Candidate F) → comes_first ranking a b ≡ false → NoBetter b a
  unfolding less
  behind-NoBetter a b h = ground (arith, h)

  All-NoBetter :
      (a b : Candidate F) (l : List (Candidate F))
      → NoBetter a b
      → All (NoBetter b) l
      → All (NoBetter a) l
  All-NoBetter a b [] h k = tt
  All-NoBetter a b (c ∷ l) h k = (omega (arith, h, k.0), All-NoBetter a b l h k.1)

  insert-ByTier :
      (a : Candidate F) (l : List (Candidate F))
      → ByTier l
      → ByTier (insert (comes_first ranking) a l)
  unfolding insert
  insert-ByTier a [] s = (tt, tt)
  insert-ByTier a (b ∷ l) s = elim (Bool-cases (comes_first ranking a b)) [
    | inl first ↦
        let better = first-NoBetter a b first in
        rw first ((better, All-NoBetter a b l better s.0), s)
    | inr behind ↦ rw behind (
      All-insert (comes_first ranking) (NoBetter b) a l (behind-NoBetter a b behind) s.0,
      insert-ByTier a l s.1,
    )
  ]

  sort_onto-ByTier :
      (out l : List (Candidate F)) → ByTier out → ByTier (sort_onto (comes_first ranking) out l)
  unfolding sort_onto
  sort_onto-ByTier out [] s = s
  sort_onto-ByTier out (a ∷ l) s =
      sort_onto-ByTier (insert (comes_first ranking) a out) l (insert-ByTier a out s)

  sort_scored-ByTier : (l : List (Candidate F)) → ByTier (sort_scored ranking l)
  unfolding sort_scored sort
  sort_scored-ByTier l = sort_onto-ByTier [] l tt

  -- Of the candidates that the picker shows for a query none stands behind one of a worse tier,
  -- whatever their scores with and without the context and the times of their last runs.
  pub ranked_candidates-ByTier :
      (db : Db) (stats : List (CommandStat F)) (place : Where) (terms : List (List ℕ))
      (status : Bytes) (now : ℤ)
      → ByTier (ranked_candidates ranking db stats place terms status now)
  unfolding ranked_candidates
  ranked_candidates-ByTier db stats place terms status now = sort_scored-ByTier _
