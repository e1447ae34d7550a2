-- ===== src/Rank/Outcome.antt =====
-- internal/rank/score.go: an exit code by what it means, and the order of scored candidates.
use shcr.Base.{ℕ, Bool, ◌&&◌, ◌||◌, if◌then◌else◌, not, ltb, ◌==◌}
use shcr.Base.Int.{ℤ, pos, ltb_ℤ, leb_ℤ, eqb_ℤ}

pub data Outcome : Type 0 where
  success failure never_ran interrupted : Outcome

unfoldable pub classify_exit : ℤ → Outcome
classify_exit code =
    if eqb_ℤ code (pos 0)
    then success
    else if eqb_ℤ code (pos 126) || eqb_ℤ code (pos 127)
    then never_ran
    else if ltb_ℤ (pos 128) code && leb_ℤ code (pos 165)
    then interrupted
    else failure

-- A tier by its rank: none 0, fuzzy 1, substring 2, prefix 3.
pub data Tier : Type 0 where
  no_tier fuzzy substring prefix : Tier

unfoldable pub tier_rank : Tier → ℕ
tier_rank no_tier = 0
tier_rank fuzzy = 1
tier_rank substring = 2
tier_rank prefix = 3

-- `Less`; `score_gt` and `score_eq` compare two scores, which are floats.
unfoldable pub less :
    {F : Type 0} → (F → F → Bool) → (F → F → Bool) → Tier → F → ℤ → Tier → F → ℤ → Bool
unfolding tier_rank
less score_gt score_eq tier1 score1 last1 tier2 score2 last2 =
    if not (tier_rank tier1 == tier_rank tier2)
    then ltb (tier_rank tier2) (tier_rank tier1)
    else if not (score_eq score1 score2)
    then score_gt score1 score2
    else ltb_ℤ last2 last1
