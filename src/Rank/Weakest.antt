-- ===== src/Rank/Weakest.antt =====
-- internal/rank/rank.go: a query is as exact as its vaguest term.
use shcr.Base.{
  ℕ, ◌≤◌, Bool, some, List, [], ◌∷◌, map, if◌then◌else◌, ltb, ◌≡◌, subst, inl, inr, arith, All,
  Option-cases, Bool-cases,
}
use shcr.Rank.Outcome.{Tier, prefix, tier_rank}
use shcr.Rank.Matching.{Letters, Scores, match_token, match_tokens, match_command, word_starts}

-- The term matches, in the tier or a better one.
abbrev pub Answered : List ℕ → List Bool → Tier → List ℕ → Type 0
Answered text starts worst tok =
    (tier : Tier) × (places : List ℕ) × (match_token text starts tok ≡ some (tier, places))
    × (tier_rank worst ≤ tier_rank tier)

module _ {F : Type 0} (letters : Letters) (scores : Scores F) where
  match_tokens-Answered :
      (text : List ℕ) (starts : List Bool) (toks : List (List ℕ)) (worst tier : Tier)
      (total total' : F)
      → match_tokens letters scores text starts toks worst total ≡ some (tier, total')
      → (tier_rank tier ≤ tier_rank worst) × All (Answered text starts tier) toks
  unfolding match_tokens
  match_tokens-Answered text starts [] worst tier total total' h =
      let same : worst ≡ tier = cc h in (rw same (omega arith), tt)
  match_tokens-Answered text starts (tok ∷ toks) worst tier total total' h =
      elim (Option-cases (match_token text starts tok)) [
        | inl bad ↦ cc (rw (bad, match_tokens) at h)
        | inr ((own, places), found) ↦
            let next = if ltb (tier_rank own) (tier_rank worst) then own else worst in
            let (low, rest) =
              match_tokens-Answered text starts toks next tier
                (scores.plus total (scores.token_score text starts places)) total'
                (rw (found, match_tokens) at h) in
            let below : (tier_rank tier ≤ tier_rank worst) × (tier_rank tier ≤ tier_rank own) =
              elim (Bool-cases (ltb (tier_rank own) (tier_rank worst))) [
                | inl better ↦
                    let low' : tier_rank tier ≤ tier_rank own = rw better at low in
                    (ground arith, low')
                | inr not_better ↦
                    let low' : tier_rank tier ≤ tier_rank worst = rw not_better at low in
                    (low', ground arith)
              ] in
            (below.0, ((own, places, found, below.1), rest))
      ]

  -- Every term of the query matches the command somewhere, none in a worse tier than the one that
  -- the command is given.
  pub match_command_weakest :
      (command : List ℕ) (toks : List (List ℕ)) (tier : Tier) (score : F)
      → match_command letters scores command toks ≡ some (tier, score)
      → All (Answered (map letters.to_lower command) (word_starts letters command) tier) toks
  unfolding match_command
  match_command_weakest command [] tier score h = tt
  match_command_weakest command (tok ∷ toks) tier score h =
      elim (Option-cases (
        match_tokens letters scores (map letters.to_lower command) (word_starts letters command)
          (tok ∷ toks) prefix scores.no_score)) [
            | inl bad ↦ cc (rw (bad, match_command) at h)
            | inr ((worst, total), found) ↦
                let same : worst ≡ tier = cc (rw (found, match_command) at h) in
                let answered =
                  (match_tokens-Answered (map letters.to_lower command)
                    (word_starts letters command) (tok ∷ toks) prefix worst scores.no_score total
                    found).1 in
                subst
                  (λ t.
                    All (Answered (map letters.to_lower command) (word_starts letters command) t)
                      (tok ∷ toks))
                  same answered
          ]
