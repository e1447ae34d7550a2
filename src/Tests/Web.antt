-- ===== src/Tests/Web.antt =====
-- The dashboard's limits, settings and stream of changes.
use shcr.Base.{◌-◌, true, false, Option, none, some, List, [], ◌∷◌, ◌≡◌, refl}
use shcr.Base.Bytes.{Bytes, codes}
use shcr.Base.Int.{ℤ, pos}
use shcr.Web.{publish_all, offered}
use shcr.Web.Api.{clamp_int}
use shcr.Web.Settings.{apply_patch, default_config}

abbrev digit : Bytes → Option ℤ
digit [] = none
digit (c ∷ s) = some (pos (c - 48))

clamped :
    (clamp_int digit [] (pos 100) (pos 1) (pos 5) ≡ pos 100)
    × (clamp_int digit (codes "0") (pos 100) (pos 1) (pos 5) ≡ pos 1)
    × (clamp_int digit (codes "3") (pos 100) (pos 1) (pos 5) ≡ pos 3)
    × (clamp_int digit (codes "9") (pos 100) (pos 1) (pos 5) ≡ pos 5)
unfolding clamp_int
clamped = (refl, refl, refl, refl)

-- Sync cannot be switched on without a backend, but the hostname can be hidden.
patched :
    (apply_patch (record { sync_enabled = some true; share_hostname = none }) default_config ≡ none)
    × (apply_patch (record { sync_enabled = none; share_hostname = some false }) default_config
        ≡ some (record default_config {
          sync = record (default_config.sync) { hide_hostname = true };
        }))
unfolding apply_patch
patched = (refl, refl)

abbrev eight : List Bytes
eight =
    codes "a"
    ∷ codes "b"
    ∷ codes "c"
    ∷ codes "d"
    ∷ codes "e"
    ∷ codes "f"
    ∷ codes "g"
    ∷ codes "h"
    ∷ []

-- The ninth payload for a client that reads none is dropped.
overflow :
    publish_all (codes "i") ((codes "slow", eight) ∷ (codes "fast", []) ∷ [])
    ≡ (codes "slow", eight) ∷ (codes "fast", codes "i" ∷ []) ∷ []
unfolding publish_all offered
overflow = refl
