-- ===== src/Web/Settings.antt =====
-- internal/config/config.go, and the settings of internal/web/api.go. JSON is a parameter; of the
-- file system only a missing file is modelled.
use shcr.Base.{
  Bool, true, false, not, ◌&&◌, Option, none, some, [], ◌∷◌, ◌++◌, if◌then◌else◌, ◌≡◌, refl,
}
use shcr.Base.Bytes.{Bytes, is_empty}
use shcr.Web.Api.{Answer, answer, bad_request, internal_error}

pub record SyncConfig : Type 0 where
  pub enabled : Bool
  pub backend : Bytes
  pub path : Bytes
  pub bucket : Bytes
  pub prefix : Bytes
  pub hide_hostname : Bool

-- `Config`, with the one field of `Ranking`.
pub record Config : Type 0 where
  pub sync : SyncConfig
  pub log_acceptances : Bool

abbrev pub default_config : Config
default_config = record {
  sync = record {
    enabled = false;
    backend = [];
    path = [];
    bucket = [];
    prefix = [];
    hide_hostname = false;
  };
  log_acceptances = true;
}

pub record Settings : Type 0 where
  pub sync_enabled : Bool
  pub sync_backend : Bytes
  pub sync_path : Bytes
  pub share_hostname : Bool
  pub sync_available : Bool

-- A patch of the settings, with `none` for a field that is absent.
pub record Patch : Type 0 where
  pub sync_enabled : Option Bool
  pub share_hostname : Option Bool

-- `json.Unmarshal` over the values that are there, and `json.MarshalIndent`.
pub record ConfigCodec : Type 0 where
  pub read : Config → Bytes → Option Config
  pub write : Config → Bytes

abbrev settings_of : Bool → Config → Settings
settings_of has_sync cfg = record {
  sync_enabled = cfg.sync.enabled;
  sync_backend = cfg.sync.backend;
  sync_path = cfg.sync.path;
  share_hostname = not cfg.sync.hide_hostname;
  sync_available = has_sync && not (is_empty cfg.sync.backend);
}

abbrev with_enabled : Option Bool → SyncConfig → SyncConfig
with_enabled none sync = sync
with_enabled (some enabled) sync = record sync { enabled = enabled }

abbrev with_shared : Option Bool → SyncConfig → SyncConfig
with_shared none sync = sync
with_shared (some shared) sync = record sync { hide_hostname = not shared }

abbrev turns_on : Option Bool → Bool
turns_on none = false
turns_on (some enabled) = enabled

-- The patch of a configuration, which cannot switch sync on without a backend.
unfoldable pub apply_patch : Patch → Config → Option Config
apply_patch patch cfg =
    if turns_on patch.sync_enabled && is_empty cfg.sync.backend
    then none
    else some (record cfg {
      sync = with_shared patch.share_hostname (with_enabled patch.sync_enabled cfg.sync);
    })

module _ (codec : ConfigCodec) (has_sync : Bool) where
  -- `Load`, over what is in the file.
  unfoldable pub load : Option Bytes → Option Config
  load none = some default_config
  load (some content) = codec.read default_config content

  -- `Save`, the new content of the file.
  unfoldable pub save : Config → Option Bytes
  save cfg = some (codec.write cfg ++ b'\n' ∷ [])

  unfoldable pub handle_get_settings : Option Bytes → Answer Settings
  unfolding load
  handle_get_settings file = elim (load file) [
    | none ↦ internal_error
    | some cfg ↦ answer (settings_of has_sync cfg)
  ]

  -- What `handlePatchSettings` does with the configuration that it has patched.
  unfoldable pub behind_patch : Option Bytes → Option Config → Option Bytes × Answer Settings
  unfolding save handle_get_settings
  behind_patch file none = (file, bad_request)
  behind_patch file (some cfg) = (save cfg, handle_get_settings (save cfg))

  -- `handlePatchSettings`; `none` is a body that could not be read.
  unfoldable pub handle_patch_settings :
      Option Patch → Option Bytes → Option Bytes × Answer Settings
  unfolding load apply_patch behind_patch
  handle_patch_settings none file = (file, bad_request)
  handle_patch_settings (some patch) file = elim (load file) [
    | none ↦ (file, internal_error)
    | some cfg ↦ behind_patch file (apply_patch patch cfg)
  ]

  -- JSON reads back what it has written.
  abbrev ReadsBack : Type 0
  ReadsBack = (cfg : Config) → codec.read default_config (codec.write cfg ++ b'\n' ∷ []) ≡ some cfg

  -- A patch that is accepted is written to the file and shown at once: the settings answered are
  -- those of the patched configuration, which is what a later request loads.
  patch_settings-load :
      ReadsBack
      → (patch : Patch) (file : Option Bytes) (cfg patched : Config) → load file ≡ some cfg
      → apply_patch patch cfg ≡ some patched
      → (load (handle_patch_settings (some patch) file).0 ≡ some patched)
        × ((handle_patch_settings (some patch) file).1 ≡ answer (settings_of has_sync patched))
  unfolding load save handle_get_settings behind_patch handle_patch_settings
  patch_settings-load back patch file cfg patched loaded applied =
      let step : handle_patch_settings (some patch) file ≡ behind_patch file (some patched) =
        rw (loaded, applied, handle_patch_settings) refl in
      rw step (back patched, rw (back patched, behind_patch, handle_get_settings, load) refl)
