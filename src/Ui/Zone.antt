-- ===== src/Ui/Zone.antt =====
-- ui.go: the row of the zone forwarding, and the change of the drop-in.
use ssh_tunnel_manager.BaiduDns.{Api, derive_zone_and_sub}
use ssh_tunnel_manager.Common.{
  ℕ, Bool, true, false, not, ◌&&◌, ◌||◌, [], ◌++◌, Option, none, some, Text, text, if◌then◌else◌,
}
use ssh_tunnel_manager.Common.Strings.{contains}
use ssh_tunnel_manager.Config.{ForwardConfig}
use ssh_tunnel_manager.Files.{FileSystem}
use ssh_tunnel_manager.SshCommand.{is_empty}
use ssh_tunnel_manager.Ui.{ZoneAction, zone_action_install, zone_action_remove, UiCmd, zone_row}
use ssh_tunnel_manager.ZoneForward.{
  Dns, ZoneError, Rendered, content, no_content, expected_zone_forward_content, zone_forward_status,
}
use ssh_tunnel_manager.ZoneForward.Install.{
  Staging, Polkit, apply_zone_forward, remove_zone_forward,
}

-- What the system answers to one goroutine: `drop_in` is the installed file.
pub record Lookups : Type 0 where
  pub api : Api
  pub dns : Dns
  pub supported : Bool
  pub drop_in : Option Text
  pub staging : Staging
  pub polkit : Polkit
  pub wording : ZoneError → Text

abbrev pub host_of : Option ForwardConfig → Text
host_of none = []
host_of (some fwd) = fwd.remote_host

-- The host is a name, not an address.
abbrev pub is_name : Api → Text → Bool
is_name api host = not (is_empty host) && not (api.is_ip_literal host)

abbrev pub zone_of : Api → Text → Text
zone_of api host = (derive_zone_and_sub api host).0

abbrev pub row_of : Bool × Bool → Text × Text × Option ZoneAction
row_of (false, up_to_date) = (text "未启用", text "启用", some zone_action_install)
row_of (true, false) = (text "需更新", text "更新", some zone_action_install)
row_of (true, true) = (text "已启用", text "移除", some zone_action_remove)

abbrev pub row_for : Lookups → Rendered → Text × Text × Option ZoneAction
row_for l (no_content e) = (text "查询失败", [], none)
row_for l (content expected) = row_of (zone_forward_status l.drop_in expected)

-- The text, the caption of the button and the pending action.
unfoldable pub zone_status : Lookups → Text → Text × Text × Option ZoneAction
zone_status l zone =
    if is_empty zone || not (contains zone (text "."))
    then (text "未配置域名", [], none)
    else row_for l (expected_zone_forward_content l.dns zone)

-- The goroutine of `refreshZoneForwardStatusAsync`: what it queues, if anything.
unfoldable pub refresh_zone : Lookups → ℕ → Option ForwardConfig → Option UiCmd
refresh_zone l gen forward =
    let host = host_of forward in
    let zone = if is_name l.api host then zone_of l.api host else [] in
    let (status, action, pending) = zone_status l zone in
    if l.supported then some (zone_row gen status action pending) else none

abbrev apply_content : Lookups → Text → FileSystem → FileSystem × Option Text
apply_content l zone fs = elim (expected_zone_forward_content l.dns zone) [
  | no_content e ↦ (fs, some (l.wording e))
  | content expected ↦ apply_zone_forward l.staging l.polkit expected fs
]

abbrev act_on : Lookups → ZoneAction → Text → FileSystem → FileSystem × Option Text
act_on l zone_action_remove zone fs = remove_zone_forward l.polkit fs
act_on l zone_action_install zone fs = apply_content l zone fs

-- The goroutine of `startZoneForwardAction` up to its result.
unfoldable pub zone_forward_action :
    Lookups → ZoneAction → Option ForwardConfig → FileSystem → FileSystem × Option Text
zone_forward_action l action none fs = (fs, some (text "未配置转发规则"))
zone_forward_action l action (some fwd) fs =
    if is_name l.api fwd.remote_host
    then (let zone = zone_of l.api fwd.remote_host in
        if contains zone (text ".")
        then act_on l action zone fs
        else (fs, some (l.polkit.quoted fwd.remote_host ++ text " 不是可优化的域名")))
    else (fs, some (text "远端地址无需解析优化"))
