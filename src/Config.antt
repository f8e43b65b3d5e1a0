-- ===== src/Config.antt =====
-- config.go: the configuration that the app keeps in one JSON file.
pub mod Save
pub mod Store
pub mod Atomic
pub mod Sealed
pub mod Reload
use ssh_tunnel_manager.Common.{Text, Bool, ℤ, Option, none, some, List, [], ◌∷◌}

-- `ForwardType` is a string in the source; its code compares it with "remote" and "local" only, and
-- other values are kept as they are.
pub record ForwardConfig : Type 0 where
  pub id : Text
  pub name : Text
  pub forward_type : Text
  pub remote_host : Text
  pub remote_port : ℤ
  pub local_host : Text
  pub local_port : ℤ
  pub ssh_user : Text
  pub ssh_password : Text
  pub auto_reconnect : Bool
  pub max_retries : ℤ
  pub retry_interval : ℤ

pub record AppSettings : Type 0 where
  pub api_key : Text
  pub ddns_check_interval : ℤ
  pub dns_resolver : Text

-- A nil pointer is `none`.
pub record AppState : Type 0 where
  pub forward : Option ForwardConfig
  pub settings : AppSettings
  pub forwards : List ForwardConfig

abbrev first_forward : Option ForwardConfig → List ForwardConfig → Option ForwardConfig
first_forward (some f) _ = some f
first_forward none [] = none
first_forward none (f ∷ fs) = some f

unfoldable pub normalize_legacy : AppState → AppState
normalize_legacy s = record s { forward = first_forward s.forward s.forwards; forwards = [] }

abbrev pub default_config : AppState
default_config = record {
  forward = none;
  settings = record { api_key = []; ddns_check_interval = ℤ.pos 0; dns_resolver = [] };
  forwards = [];
}
