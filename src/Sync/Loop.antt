-- ===== src/Sync/Loop.antt =====
-- internal/sync/loop.go: when the next sync runs. Times are nanoseconds since 1970, durations are
-- int64 nanoseconds; the timer fires at its deadline or later.
use shcr.Base.{◌*◌, Bool, true, false, ◌||◌, Option, none, some, List, [], ◌∷◌, if◌then◌else◌}
use shcr.Base.Int.{ℤ, pos, ◌+ℤ◌, ◌-ℤ◌, ◌*ℤ◌, ◌≤ℤ◌, ltb_ℤ, leb_ℤ, wrap64}
use shcr.Histfile.Undated.{second, sub_time}

pub data Trigger : Type 0 where
  daemon_start command session_start session_end picker manual : Trigger

pub record LoopConfig : Type 0 where
  pub min_interval : ℤ
  pub max_interval : ℤ
  pub jitter : ℤ
  pub max_backoff : ℤ

abbrev pub default_loop_config : LoopConfig
default_loop_config = record {
  min_interval = pos (30 * second);
  max_interval = pos (3 * 3600 * second);
  jitter = pos (30 * second);
  max_backoff = pos (15 * 60 * second);
}

abbrev or_default : ℤ → ℤ → ℤ
or_default value default = if leb_ℤ value (pos 0) then default else value

unfoldable pub with_defaults : LoopConfig → LoopConfig
with_defaults c =
    let least = or_default c.min_interval default_loop_config.min_interval in
    let most = or_default c.max_interval default_loop_config.max_interval in
    record {
      min_interval = least;
      max_interval = if ltb_ℤ most least then least else most;
      jitter = c.jitter;
      max_backoff = or_default c.max_backoff default_loop_config.max_backoff;
    }

unfoldable pub until : ℤ → ℤ → ℤ
unfolding sub_time
until now deadline = let d = sub_time deadline now in if ltb_ℤ (pos 0) d then d else pos 0

unfoldable pub next_backoff : ℤ → ℤ → ℤ → ℤ
next_backoff current floor max =
    let next = wrap64 (current *ℤ pos 2) in
    if leb_ℤ current (pos 0) then floor else if ltb_ℤ max next then max else next

-- The first instant of the year 1, Go's zero time.
abbrev pub zero_time : ℤ
zero_time = pos 0 -ℤ pos (62135596800 * second)

-- The variables of `Run`. `last_attempt` is none before the first attempt.
pub record Loop : Type 0 where
  pub last_attempt : Option ℤ
  pub last_success : ℤ
  pub pending : Option Trigger
  pub backoff : ℤ

abbrev pub first_round : Loop
first_round = record {
  last_attempt = none;
  last_success = zero_time;
  pending = none;
  backoff = pos 0;
}

is_some : Option Trigger → Bool
is_some none = false
is_some (some t) = true

-- What a failed attempt, or the configured floor, makes the next one wait.
unfoldable pub wait_of : LoopConfig → Loop → ℤ
wait_of c st = if ltb_ℤ c.min_interval st.backoff then st.backoff else c.min_interval

-- The deadline behind a first attempt; `spread` is what `jitterOf` has drawn.
unfoldable pub deadline : LoopConfig → ℤ → Loop → ℤ → ℤ
unfolding wait_of is_some
deadline c spread st attempt =
    let floor = attempt +ℤ wait_of c st in
    let periodic = st.last_success +ℤ wrap64 (c.max_interval +ℤ spread) in
    if is_some st.pending || ltb_ℤ (pos 0) st.backoff
    then floor
    else if ltb_ℤ periodic floor
    then floor
    else periodic

unfoldable pub delay : LoopConfig → ℤ → ℤ → Loop → ℤ
unfolding deadline until
delay c now spread st = elim st.last_attempt [
  | none ↦ pos 0
  | some attempt ↦ until now (deadline c spread st attempt)
]

-- What becomes of an attempt: sync is switched off, the cycle fails, or it is done at a time.
pub data Attempt : Type 0 where
  disabled failed : Attempt
  synced : ℤ → Attempt

unfoldable pub on_trigger : Trigger → Loop → Loop
on_trigger t st = elim st.pending [ none ↦ record st { pending = some t } | some earlier ↦ st ]

unfoldable pub on_timer : LoopConfig → ℤ → Attempt → Loop → Loop
unfolding next_backoff
on_timer c now disabled st = record st { last_attempt = some now; pending = none }
on_timer c now failed st = record st {
  last_attempt = some now;
  pending = none;
  backoff = next_backoff st.backoff c.min_interval c.max_backoff;
}
on_timer c now (synced done) st = record st {
  last_attempt = some now;
  pending = none;
  backoff = pos 0;
  last_success = done;
}

-- An attempt does not lie behind the clock.
abbrev pub NotBefore : Option ℤ → ℤ → Type 0
NotBefore none now = Unit
NotBefore (some attempt) now = attempt ≤ℤ now

-- The runs of the loop from a state, with the times of their attempts. A round sets the timer at
-- `now`; it fires when the delay is over, or a trigger comes first.
pub data Runs (c : LoopConfig) : Loop → List ℤ → Type 0 where
  stopped : (st : Loop) → Runs c st []
  triggered :
      (st : Loop) (t : Trigger) (attempts : List ℤ)
      → Runs c (on_trigger t st) attempts
      → Runs c st attempts
  fired :
      (st : Loop) (now spread fires : ℤ) (attempt : Attempt) (attempts : List ℤ)
      → NotBefore st.last_attempt now
      → now +ℤ delay c now spread st ≤ℤ fires
      → Runs c (on_timer c fires attempt st) attempts
      → Runs c st (fires ∷ attempts)
