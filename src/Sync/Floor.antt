-- ===== src/Sync/Floor.antt =====
-- The floor of the sync loop: no two attempts are closer together than MinInterval.
use shcr.Base.{
  ℕ, ◌-◌, ◌*◌, ◌^◌, ◌<◌, Option, none, some, List, [], ◌∷◌, ◌≡◌, refl, ◌⊎◌, inl, inr, arith,
  Bool-cases, Option-cases,
}
use shcr.Base.Int.{
  ℤ, pos, negsuc, ◌+ℤ◌, ◌-ℤ◌, ◌*ℤ◌, ◌≤ℤ◌, ◌<ℤ◌, ltb_ℤ, leb_ℤ, wrap64, wrap64-IsInt64,
  wrap64-eq_self, IsInt64, +ℤ_parts, -ℤ_parts,
}
use shcr.Histfile.Undated.{sub_time, clamp_duration}
use shcr.Sync.Loop.{
  LoopConfig, Loop, Trigger, Attempt, disabled, failed, synced, Runs, stopped, triggered, fired,
  with_defaults, until, next_backoff, wait_of, deadline, delay, on_trigger, on_timer, first_round,
}

-- The time until a deadline is the difference, where that is neither past nor out of range.
until-cases :
    (now due : ℤ)
    → (until now due ≡ pos (2 ^ 63 - 1))
      ⊎ (until now due ≡ due -ℤ now)
      ⊎ ((until now due ≡ pos 0) × (due ≤ℤ now))
unfolding until sub_time clamp_duration
until-cases now due =
    let parts = -ℤ_parts due now in
    elim (Bool-cases (ltb_ℤ (pos (2 ^ 63 - 1)) (due -ℤ now))) [
      | inl far ↦ inl (rw far refl)
      | inr near ↦ elim (Bool-cases (ltb_ℤ (due -ℤ now) (negsuc (2 ^ 63 - 1)))) [
        | inl past ↦ inr (inr (ground arith))
        | inr in_range ↦ elim (Bool-cases (ltb_ℤ (pos 0) (due -ℤ now))) [
          | inl ahead ↦ inr (inl (rw (near, in_range, ahead) refl))
          | inr behind ↦ inr (inr (rw (near, in_range, behind) refl, ground arith))
        ]
      ]
    ]

-- A timer that is set for a deadline at or behind the floor does not fire before the floor.
until-floor :
    (now due floor : ℤ)
    → floor ≤ℤ due
    → floor ≤ℤ now +ℤ pos (2 ^ 63 - 1)
    → floor ≤ℤ now +ℤ until now due
until-floor now due floor behind near = elim (until-cases now due) [
  | inl e ↦ rw e near
  | inr (inl e) ↦ rw e (omega (arith, -ℤ_parts due now, +ℤ_parts now (due -ℤ now)))
  | inr (inr (e, past)) ↦ rw e (omega (arith, +ℤ_parts now (pos 0)))
]

deadline-floor :
    (c : LoopConfig) (spread : ℤ) (st : Loop) (attempt : ℤ)
    → attempt +ℤ wait_of c st ≤ℤ deadline c spread st attempt
unfolding deadline
deadline-floor c spread st attempt = ground arith

-- The durations of the configuration and of the state are int64.
abbrev pub Fits : LoopConfig → Type 0
Fits c = IsInt64 c.min_interval × IsInt64 c.max_backoff

wait_of-IsInt64 :
    (c : LoopConfig) (st : Loop) → Fits c → IsInt64 st.backoff → IsInt64 (wait_of c st)
unfolding wait_of
wait_of-IsInt64 c st (least, most) now_backoff = ground arith

min_interval-wait_of : (c : LoopConfig) (st : Loop) → c.min_interval ≤ℤ wait_of c st
unfolding wait_of
min_interval-wait_of c st = ground arith

delay-floor :
    (c : LoopConfig) (now spread : ℤ) (st : Loop) (attempt : ℤ)
    → Fits c
    → IsInt64 st.backoff
    → st.last_attempt ≡ some attempt
    → attempt ≤ℤ now
    → attempt +ℤ c.min_interval ≤ℤ now +ℤ delay c now spread st
unfolding delay
delay-floor c now spread st attempt fits b e le =
    let w = wait_of c st in
    let due = deadline c spread st attempt in
    let least = min_interval-wait_of c st in
    let w64 = wait_of-IsInt64 c st fits b in
    let reached : attempt +ℤ w ≤ℤ now +ℤ until now due =
      until-floor now due (attempt +ℤ w) (deadline-floor c spread st attempt)
        (omega (arith, +ℤ_parts attempt w, +ℤ_parts now (pos (2 ^ 63 - 1)))) in
    rw (e, delay)
      (omega
        (arith, +ℤ_parts attempt w, +ℤ_parts attempt c.min_interval, +ℤ_parts now (until now due)))

next_backoff-IsInt64 :
    (current floor max : ℤ) → IsInt64 floor → IsInt64 max → IsInt64 (next_backoff current floor max)
unfolding next_backoff
next_backoff-IsInt64 current floor max f m = ground (arith, wrap64-IsInt64 (current *ℤ pos 2))

on_timer-IsInt64 :
    (c : LoopConfig) (now : ℤ) (attempt : Attempt) (st : Loop)
    → Fits c
    → IsInt64 st.backoff
    → IsInt64 (on_timer c now attempt st).backoff
unfolding on_timer
on_timer-IsInt64 c now disabled st fits b = b
on_timer-IsInt64 c now failed st fits b =
    next_backoff-IsInt64 st.backoff c.min_interval c.max_backoff fits.0 fits.1
on_timer-IsInt64 c now (synced done) st fits b = ground arith

on_timer-last_attempt :
    (c : LoopConfig) (now : ℤ) (attempt : Attempt) (st : Loop)
    → (on_timer c now attempt st).last_attempt ≡ some now
unfolding on_timer
on_timer-last_attempt c now disabled st = refl
on_timer-last_attempt c now failed st = refl
on_timer-last_attempt c now (synced done) st = refl

on_trigger-kept :
    (t : Trigger) (st : Loop)
    → ((on_trigger t st).last_attempt ≡ st.last_attempt) × ((on_trigger t st).backoff ≡ st.backoff)
unfolding on_trigger
on_trigger-kept t st = elim (Option-cases st.pending) [
  | inl e ↦ rw (e, on_trigger) (refl, refl)
  | inr (earlier, e) ↦ rw (e, on_trigger) (refl, refl)
]

-- Each time lies at least `gap` behind the one before it.
abbrev pub Spaced : ℤ → Option ℤ → List ℤ → Type 0
Spaced gap last [] = Unit
Spaced gap none (t ∷ times) = Spaced gap (some t) times
Spaced gap (some last) (t ∷ times) = (last +ℤ gap ≤ℤ t) × Spaced gap (some t) times

Spaced-cons :
    (gap t : ℤ) (last : Option ℤ) (times : List ℤ)
    → ((a : ℤ) → last ≡ some a → a +ℤ gap ≤ℤ t)
    → Spaced gap (some t) times
    → Spaced gap last (t ∷ times)
Spaced-cons gap t none times h s = s
Spaced-cons gap t (some a) times h s = (h a refl, s)

Runs-Spaced :
    (c : LoopConfig) (st : Loop) (attempts : List ℤ)
    → Fits c
    → IsInt64 st.backoff
    → Runs c st attempts
    → Spaced c.min_interval st.last_attempt attempts
Runs-Spaced c st attempts fits b (stopped _) = tt
Runs-Spaced c st attempts fits b (triggered _ t _ run) =
    let (same, same_backoff) = on_trigger-kept t st in
    let b' : IsInt64 (on_trigger t st).backoff = rw same_backoff b in
    let later = Runs-Spaced c (on_trigger t st) attempts fits b' run in rw same at later
Runs-Spaced c st attempts fits b (fired _ now spread fires attempt rest before due run) =
    let behind =
      Runs-Spaced c (on_timer c fires attempt st) rest fits
        (on_timer-IsInt64 c fires attempt st fits b) run in
    Spaced-cons c.min_interval fires st.last_attempt rest
      (λ a e.
        let earlier : a ≤ℤ now = rw e at before in
        let reached = delay-floor c now spread st a fits b e earlier in omega arith)
      (rw (on_timer-last_attempt c fires attempt st) at behind)

with_defaults-Fits : (c : LoopConfig) → Fits c → Fits (with_defaults c)
unfolding with_defaults
with_defaults-Fits c fits = ground arith

-- Whatever triggers arrive and whatever becomes of the attempts, two attempts of the loop are never
-- closer together than the configured interval, which is a positive one. The durations of the
-- configuration are int64, and the clock does not step back between attempts.
pub attempts-Spaced :
    (c : LoopConfig) (attempts : List ℤ)
    → Fits c
    → Runs (with_defaults c) first_round attempts
    → Spaced (with_defaults c).min_interval none attempts
      × (pos 1 ≤ℤ (with_defaults c).min_interval)
unfolding with_defaults
attempts-Spaced c attempts fits run = (
  Runs-Spaced (with_defaults c) first_round attempts (with_defaults-Fits c fits) (ground arith) run,
  ground arith,
)

double_pos : (n : ℕ) → pos n *ℤ pos 2 ≡ pos (n * 2)
unfolding ◌*ℤ◌
double_pos n = ground arith

-- Behind a failure the loop waits no less than the floor and no longer than the largest backoff: the
-- floor where it did not wait for one before, and else twice as long as before, or the largest
-- backoff if that is less; where the state and the configuration are in range.
pub next_backoff_bounds :
    (current floor max : ℤ)
    → pos 1 ≤ℤ floor
    → floor ≤ℤ max
    → max ≤ℤ pos (2 ^ 62 - 1)
    → (current ≤ℤ pos 0) ⊎ ((floor ≤ℤ current) × (current ≤ℤ max))
    → (floor ≤ℤ next_backoff current floor max)
      × (next_backoff current floor max ≤ℤ max)
      × ((current ≤ℤ pos 0) × (next_backoff current floor max ≡ floor)
          ⊎ (pos 1 ≤ℤ current)
            × (current *ℤ pos 2 ≤ℤ max)
            × (next_backoff current floor max ≡ current *ℤ pos 2)
          ⊎ (pos 1 ≤ℤ current) × (max <ℤ current *ℤ pos 2) × (next_backoff current floor max ≡ max))
unfolding next_backoff
next_backoff_bounds (negsuc n) floor max positive order small ok_state = ground arith
next_backoff_bounds (pos n) floor max positive order small ok_state =
    elim (Bool-cases (leb_ℤ (pos n) (pos 0))) [
      | inl fresh ↦ ground arith
      | inr again ↦
          let fits : n * 2 < 2 ^ 63 = elim ok_state [
            | inl low ↦ ground arith
            | inr (low, high) ↦ omega arith
          ] in
          let twice : wrap64 (pos n *ℤ pos 2) ≡ pos (n * 2) =
            rw (double_pos n) (wrap64-eq_self (pos (n * 2)) (fits, omega arith)) in
          ground (arith, twice, double_pos n)
    ]
