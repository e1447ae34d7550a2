-- ===== src/Tests/Rank.antt =====
-- Candidates with natural numbers for scores.
use shcr.Base.{
  refl, ◌+◌, ◌&&◌, leb, if◌then◌else◌, List, [], ◌∷◌, map, length, some, All, ℕ, ltb, ◌==◌, ==_iff,
  ◌≡◌, arith,
}
use shcr.Base.Bytes.{codes, has_prefix}
use shcr.Rank.Matching.{
  Letters, Scores, match_command, match_tokens, match_token, prefix_place, verbatim_place,
  subsequence, scan_forward, scan_backward, reverse_onto, contiguous, word_starts, starts_behind,
  word_start, lower_follows, is_separator,
}
use shcr.Rank.Weakest.{Answered, match_command_weakest}
use shcr.Base.Int.{pos}
use shcr.Base.Sort.{StrictOrder}
use shcr.Rank.Outcome.{Tier, tier_rank}
use shcr.Rank.Gate.{Scored, ScoreLaws, ranks_before, less-StrictOrder}

abbrev exact : Scored ℕ
exact = record { tier = Tier.prefix; score = 1; last = pos 0 }

abbrev scattered : Scored ℕ
scattered = record { tier = Tier.fuzzy; score = 9; last = pos 5 }

number_laws : ScoreLaws (λ a b. ltb b a) ◌==◌
number_laws = record {
  same = λ a b. ==_iff a b;
  irrefl = λ a. ground arith;
  trans = λ a b c h k. ground arith;
}

less-StrictOrder_example : StrictOrder (ranks_before (λ a b. ltb b a) ◌==◌)
less-StrictOrder_example = less-StrictOrder (λ a b. ltb b a) ◌==◌ number_laws

-- Lower-case letters are those from a on; the score of a match is its number of runes.
abbrev pub ascii : Letters
ascii = record {
  to_lower = λ r. if leb 65 r && leb r 90 then r + 32 else r;
  is_upper = λ r. leb 65 r && leb r 90;
  is_lower = λ r. leb 97 r && leb r 122;
}

abbrev counts : Scores ℕ
counts = record {
  token_score = λ text starts places. length places;
  no_score = 0;
  full_score = 1;
  plus = λ a b. a + b;
  mean = λ a n. a;
}

abbrev terms : List (List ℕ)
terms = codes "build" ∷ codes "nm" ∷ []

hump_and_scatter : match_command ascii counts (codes "npmRunBuild") terms ≡ some (Tier.fuzzy, 7)
unfolding match_command match_tokens match_token prefix_place verbatim_place subsequence
    scan_forward scan_backward reverse_onto contiguous word_starts starts_behind word_start
    lower_follows is_separator has_prefix tier_rank
hump_and_scatter = refl

match_command_weakest_example :
    All
      (Answered
        (map ascii.to_lower (codes "npmRunBuild"))
        (word_starts ascii (codes "npmRunBuild"))
        Tier.fuzzy)
      terms
match_command_weakest_example =
    match_command_weakest ascii counts (codes "npmRunBuild") terms Tier.fuzzy 7 hump_and_scatter
