-- ===== src/Rank/Frecency.antt =====
-- internal/rank/frecency.go: the decayed count of a command's executions. The floating-point
-- operations on its weight are parameters.
use shcr.Base.{◌*◌, not, ◌&&◌, if◌then◌else◌}
use shcr.Base.Int.{ℤ, pos, ◌-ℤ◌, ltb_ℤ, leb_ℤ, eqb_ℤ, wrap64}

-- `w * exp(-lambda * d)`, `w + exp(-lambda * d)` and the weight 0.
pub record Weights (W : Type 0) : Type 0 where
  pub decayed : W → ℤ → W
  pub counted : W → ℤ → W
  pub no_weight : W

pub record Counter (W : Type 0) : Type 0 where
  pub weight : W
  pub at : ℤ
  pub last_counted : ℤ

-- `BurstWindow.Milliseconds()`
abbrev pub burst_window : ℤ
burst_window = pos (5 * 60 * 1000)

unfoldable pub abs64 : ℤ → ℤ
abs64 v = if ltb_ℤ v (pos 0) then wrap64 (pos 0 -ℤ v) else v

module _ {W : Type 0} (weights : Weights W) where
  abbrev pub new_counter : Counter W
  new_counter = record { weight = weights.no_weight; at = pos 0; last_counted = pos 0 }

  -- The first half of `Observe`: the counter brought up to the time, and the execution's age.
  unfoldable pub advance : Counter W → ℤ → Counter W × ℤ
  advance c t =
      let d = wrap64 (t -ℤ c.at) in
      if leb_ℤ (pos 0) d
      then (record c { weight = weights.decayed c.weight d; at = t }, pos 0)
      else (c, wrap64 (pos 0 -ℤ d))

  unfoldable pub observe : Counter W → ℤ → Counter W
  unfolding advance abs64
  observe c t =
      let (c', age) = advance c t in
      if leb_ℤ (abs64 (wrap64 (t -ℤ c'.last_counted))) burst_window
        && not (eqb_ℤ c'.last_counted (pos 0))
      then c'
      else record c' {
        weight = weights.counted c'.weight age;
        last_counted = if ltb_ℤ c'.last_counted t then t else c'.last_counted;
      }

  unfoldable pub value : Counter W → ℤ → W
  value c now =
      let d = wrap64 (now -ℤ c.at) in
      if ltb_ℤ (pos 0) d then weights.decayed c.weight d else c.weight
