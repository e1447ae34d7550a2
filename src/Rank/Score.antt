-- ===== src/Rank/Score.antt =====
-- internal/rank/score.go and rank.go: the scores. Floating-point numbers are a type with the
-- operations that the code uses.
use shcr.Base.{
  ℕ, ◌+◌, ◌-◌, Bool, true, false, Option, none, some, List, [], ◌∷◌, ◌++◌, map, if◌then◌else◌, ◌==◌,
  length, get_or,
}
use shcr.Rank.Outcome.{Tier, no_tier}
use shcr.Rank.Matching.{Letters, Scores}

-- `hundredths n` is the constant n / 100.
pub record Floats (F : Type 0) : Type 0 where
  pub hundredths : ℕ → F
  pub of_nat : ℕ → F
  pub plus : F → F → F
  pub minus : F → F → F
  pub times : F → F → F
  pub divided : F → F → F
  pub cube_root : F → F
  pub log1p : F → F
  pub lower : F → F → F
  pub higher : F → F → F
  pub above : F → F → Bool

-- `Context`
pub record Context (F : Type 0) : Type 0 where
  pub same_dir : Bool
  pub same_repo : Bool
  pub same_session : Bool
  pub same_host : Bool
  pub same_branch : Bool
  pub failure_rate : F
  pub never_ran : Bool
  pub debugging : Bool
  pub all_imported : Bool

-- The place is the one behind the previous one.
abbrev follows : Option ℕ → ℕ → Bool
follows none p = false
follows (some previous) p = previous + 1 == p

unfoldable pub last_place : ℕ → List ℕ → ℕ
last_place p [] = p
last_place p (q ∷ places) = last_place q places

-- `strings.Fields`, behind the runes of the current field.
unfoldable pub fields : (ℕ → Bool) → List ℕ → List ℕ → List (List ℕ)
fields is_space [] [] = []
fields is_space (c ∷ cur) [] = (c ∷ cur) ∷ []
fields is_space [] (r ∷ text) =
    let next = fields is_space [] text in
    let more = fields is_space (r ∷ []) text in if is_space r then next else more
fields is_space (c ∷ cur) (r ∷ text) =
    let next = fields is_space [] text in
    let more = fields is_space (c ∷ cur ++ r ∷ []) text in
    if is_space r then (c ∷ cur) ∷ next else more

-- `Tokens`
unfoldable pub tokens : Letters → (ℕ → Bool) → List ℕ → List (List ℕ)
unfolding fields
tokens letters is_space query = fields is_space [] (map letters.to_lower query)

module _ {F : Type 0} (floats : Floats F) where
  abbrev pub weight_word_start : F
  weight_word_start = floats.hundredths 100

  abbrev pub weight_consecutive : F
  weight_consecutive = floats.hundredths 70

  abbrev pub weight_elsewhere : F
  weight_elsewhere = floats.hundredths 40

  -- The loop of `tokenScore`.
  unfoldable pub placement_sum : List Bool → Option ℕ → List ℕ → F → F
  placement_sum starts previous [] sum = sum
  placement_sum starts previous (p ∷ places) sum =
      let weight =
        if get_or starts p false
        then weight_word_start
        else if follows previous p
        then weight_consecutive
        else weight_elsewhere in
      placement_sum starts (some p) places (floats.plus sum weight)

  unfoldable pub token_score : List ℕ → List Bool → List ℕ → F
  unfolding placement_sum last_place
  token_score text starts [] = floats.hundredths 0
  token_score text starts (p ∷ places) =
      let n = floats.of_nat (length (p ∷ places)) in
      let sum = placement_sum starts none (p ∷ places) (floats.hundredths 0) in
      let span = floats.of_nat (last_place p places - p + 1) in
      floats.times (floats.divided sum n) (floats.cube_root (floats.divided n span))

  unfoldable pub scores_of : Scores F
  unfolding token_score
  scores_of = record {
    token_score = token_score;
    no_score = floats.hundredths 0;
    full_score = floats.hundredths 100;
    plus = floats.plus;
    mean = λ total n. floats.divided total (floats.of_nat n);
  }

  abbrev scaled : Bool → ℕ → F → F
  scaled true factor m = floats.times m (floats.hundredths factor)
  scaled false factor m = m

  -- The second `switch` of `Multiplier`.
  abbrev penalised : Context F → F → F
  penalised c m =
      if c.never_ran
      then floats.times m (floats.hundredths 60)
      else if c.debugging
      then m
      else if floats.above c.failure_rate (floats.hundredths 0)
      then floats.times m (
          floats.minus (floats.hundredths 100) (floats.times (floats.hundredths 25) c.failure_rate))
      else m

  unfoldable pub multiplier : Context F → F
  multiplier c =
      let place =
        if c.same_dir
        then scaled true 135 (floats.hundredths 100)
        else scaled c.same_repo 120 (floats.hundredths 100) in
      let here =
        scaled c.same_branch 110 (scaled c.same_host 110 (scaled c.same_session 115 place)) in
      let m = scaled c.all_imported 90 (penalised c here) in
      floats.lower (floats.higher m (floats.hundredths 60)) (floats.hundredths 200)

  abbrev is_no_tier : Tier → Bool
  is_no_tier no_tier = true
  is_no_tier _ = false

  unfoldable pub score : Tier → F → F → Context F → F
  unfolding multiplier
  score tier match_score frecency c =
      if is_no_tier tier
      then floats.hundredths 0
      else floats.times
          (floats.times match_score (
            floats.plus (floats.hundredths 100)
              (floats.times (floats.hundredths 60) (floats.log1p frecency))))
          (multiplier c)
