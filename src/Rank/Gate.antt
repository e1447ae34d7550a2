-- ===== src/Rank/Gate.antt =====
-- internal/rank/score.go: the order of the candidates, with the tier as a gate.
use shcr.Base.{Bool, true, false, ◌≡◌, ◌↔◌, arith}
use shcr.Base.Int.{ℤ}
use shcr.Base.Sort.{StrictOrder}
use shcr.Rank.Outcome.{Tier, less}

pub record Scored (F : Type 0) : Type 0 where
  pub tier : Tier
  pub score : F
  pub last : ℤ

-- Scores are floats, none of which is NaN.
pub record ScoreLaws {F : Type 0} (score_gt score_eq : F → F → Bool) : Type 0 where
  pub same : (a b : F) → (score_eq a b ≡ true) ↔ (a ≡ b)
  pub irrefl : (a : F) → score_gt a a ≡ false
  pub trans : (a b c : F) → score_gt a b ≡ true → score_gt b c ≡ true → score_gt a c ≡ true

module _ {F : Type 0} (score_gt score_eq : F → F → Bool) where
  abbrev pub ranks_before : Scored F → Scored F → Bool
  ranks_before a b = less score_gt score_eq a.tier a.score a.last b.tier b.score b.last

  module _ (laws : ScoreLaws score_gt score_eq) where
    less_irrefl : (a : Scored F) → ranks_before a a ≡ false
    unfolding less
    less_irrefl a = ground (arith, laws.same a.score a.score)

    less_trans :
        (a b c : Scored F)
        → ranks_before a b ≡ true
        → ranks_before b c ≡ true
        → ranks_before a c ≡ true
    unfolding less
    less_trans a b c h k = ground (
      arith,
      laws.same a.score b.score,
      laws.same b.score c.score,
      laws.same a.score c.score,
      laws.trans a.score b.score c.score,
      laws.irrefl a.score,
    )

    -- `Less` is a strict order, so that sorting by it is well defined.
    pub less-StrictOrder : StrictOrder ranks_before
    less-StrictOrder = record { irrefl = less_irrefl; trans = less_trans }
