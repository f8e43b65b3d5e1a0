-- ===== src/Ui/Reopen.antt =====
-- ui.go: what a save of the form as it is loaded does.
use ssh_tunnel_manager.Common.{
  ℕ, true, false, some, [], pos, suc, ◌⊎◌, text, if◌then◌else◌, is_positive, ◌^◌, ◌<◌, ◌≡◌, ℤ, Text,
}
use ssh_tunnel_manager.Common.Strings.{trim_space}
use ssh_tunnel_manager.Config.{ForwardConfig}
use ssh_tunnel_manager.Config.Store.{
  ConfigManager, get_forward, get_api_key, get_ddns_check_interval, get_dns_resolver,
}
use ssh_tunnel_manager.SshCommand.{is_empty}
use ssh_tunnel_manager.Ui.{App, Form}
use ssh_tunnel_manager.Ui.Settings.{
  Saving, updated_forward, reload_form, load_config_to_form, effective_interval,
}
use ssh_tunnel_manager.Ui.Valid.{IsPort}

-- A text that the form gives back.
pub record IsTrimmed (t : Text) : Type 0 where
  pub trimmed : trim_space t ≡ t
  pub given : is_empty t ≡ false

-- A positive number that an `int` can hold.
pub record IsSmall (z : ℤ) : Type 0 where
  pub value : ℕ
  pub same : z ≡ pos (suc value)
  pub bound : suc value < 2 ^ 63

-- What the app itself writes: a rule as `saveSettings` makes it, and settings that can be unset.
pub record IsComplete (cfg : ConfigManager) (f : ForwardConfig) : Type 0 where
  pub stored : get_forward cfg ≡ some f
  pub no_legacy : cfg.state.forwards ≡ []
  pub remote_host : IsTrimmed f.remote_host
  pub ssh_user : IsTrimmed f.ssh_user
  pub local_host : IsTrimmed f.local_host
  pub remote_port : IsPort f.remote_port
  pub local_port : IsPort f.local_port
  pub forward_type : (f.forward_type ≡ text "local") ⊎ (f.forward_type ≡ text "remote")
  pub name_given : is_empty f.name ≡ false
  pub retries_positive : is_positive f.max_retries ≡ true
  pub pause_positive : is_positive f.retry_interval ≡ true
  pub api_key : trim_space (get_api_key cfg) ≡ get_api_key cfg
  pub interval : IsSmall (effective_interval (get_ddns_check_interval cfg))
  pub resolver : trim_space (get_dns_resolver cfg) ≡ get_dns_resolver cfg

-- The configuration with the settings that the form shows for unset ones: 15 seconds, and a public resolver.
abbrev pub as_shown : ConfigManager → ConfigManager
as_shown cfg = record cfg {
  state = record (cfg.state) {
    settings = record (cfg.state.settings) {
      ddns_check_interval =
          if is_positive cfg.state.settings.ddns_check_interval
          then cfg.state.settings.ddns_check_interval
          else pos 15;
      dns_resolver =
          if is_empty cfg.state.settings.dns_resolver
          then text "119.29.29.29"
          else cfg.state.settings.dns_resolver;
    };
  };
}

module _ (cfg : ConfigManager) (f : ForwardConfig) (c : IsComplete cfg f) (form : Form) where
  abbrev loaded : Form
  loaded = load_config_to_form cfg form

-- What a save without an edit leaves, by what the user is told.
pub data Resaved (before : ConfigManager) (after : App) : Type 0 where
  saved : after.config ≡ as_shown before → after.ui.test_ok ≡ true → Resaved before after
  rolled_back : after.config ≡ before → after.ui.test_ok ≡ false → Resaved before after

module _ (s : Saving) (app : App) (f : ForwardConfig) (c : IsComplete app.config f) where
  abbrev shown : App
  shown = reload_form app

  abbrev saved_forward : ForwardConfig
  saved_forward = updated_forward s.now (get_forward app.config) shown.ui.form
