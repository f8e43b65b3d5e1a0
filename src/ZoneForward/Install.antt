-- ===== src/ZoneForward/Install.antt =====
-- zone_forward.go: the installation and the removal of the drop-in by a root helper.
use ssh_tunnel_manager.Common.{
  Bool, false, [], ◌∷◌, ◌++◌, Option, none, some, Text, text, if◌then◌else◌,
}
use ssh_tunnel_manager.Common.Strings.{trim_space}
use ssh_tunnel_manager.Files.{FileSystem, store, remove, apply_all}
use ssh_tunnel_manager.SshCommand.{is_empty}

-- `zoneForwardSupported`: whether the system is Linux, resolvectl is found, and the directory of
-- systemd-resolved is there.
unfoldable pub zone_forward_supported : Bool → Bool → Bool → Bool
zone_forward_supported linux resolvectl directory =
    if linux then (if resolvectl then directory else false) else false

-- How `pkexec sh -c script` ends: `failed` has the text of the error and the combined output.
pub data Outcome : Type 0 where
  worked timed_out : Outcome
  failed : Text → Text → Outcome

-- `quoted` is the verb %q of fmt; `runs` is what pkexec does with a script over the files: the files that
-- the script leaves as root, and how it ends.
pub record Polkit : Type 0 where
  pub found : Bool
  pub quoted : Text → Text
  pub runs : Text → FileSystem → FileSystem × Outcome

abbrev pub outcome_error : Outcome → Option Text
outcome_error worked = none
outcome_error timed_out = some (text "授权超时")
outcome_error (failed err out) =
    if is_empty (trim_space out) then some err else some (err ++ (text ": " ++ trim_space out))

-- The files after the call, and its error, `none` when it succeeds.
unfoldable pub run_polkit_script : Polkit → Text → FileSystem → FileSystem × Option Text
run_polkit_script p script fs =
    if p.found
    then (let (fs', outcome) = p.runs script fs in (fs', outcome_error outcome))
    else (fs, some (text "未找到图形授权工具 pkexec，请手动执行: " ++ script))

-- The temporary file, and the errors of its calls; `partial` is what a failed write leaves, and `removes`
-- tells whether its removal works, whose error is ignored.
pub record Staging : Type 0 where
  pub tmp_name : Text
  pub create_error : Option Text
  pub write_error : Option Text
  pub partial : Text
  pub chmod_error : Option Text
  pub close_error : Option Text
  pub removes : Bool

abbrev pub resolved_drop_in_dir : Text
resolved_drop_in_dir = text "/etc/systemd/resolved.conf.d"

abbrev pub resolved_drop_in_path : Text
resolved_drop_in_path = text "/etc/systemd/resolved.conf.d/ssh-tunnel-manager.conf"

unfoldable pub install_script : Polkit → Text → Text
install_script p tmp_name =
    text "mkdir -p "
    ++ (p.quoted resolved_drop_in_dir
        ++ (text " && install -m 644 "
            ++ (p.quoted tmp_name
                ++ (text " "
                    ++ (p.quoted resolved_drop_in_path
                        ++ text " && systemctl restart systemd-resolved")))))

-- The deferred removal of the temporary file.
abbrev pub removed : Staging → FileSystem → Option Text → FileSystem × Option Text
removed s fs failure = (if s.removes then apply_all (remove s.tmp_name ∷ []) fs else fs, failure)

abbrev pub written : Staging → Text → FileSystem → FileSystem
written s content fs = apply_all (store s.tmp_name [] ∷ store s.tmp_name content ∷ []) fs

-- The first of the calls on the temporary file that fails: what the file then holds, and the error.
abbrev pub stage_failure : Staging → Text → Option (Text × Text)
stage_failure s content = elim s.write_error [
  | some e ↦ some (s.partial, text "写入临时文件失败: " ++ e)
  | none ↦ elim s.chmod_error [
    | some e ↦ some (content, text "设置临时文件权限失败: " ++ e)
    | none ↦ elim s.close_error [ some e ↦ some (content, text "关闭临时文件失败: " ++ e) | none ↦ none ]
  ]
]

abbrev pub after_staging :
    Staging → Polkit → Text → FileSystem → Option (Text × Text) → FileSystem × Option Text
after_staging s p content fs (some (contents, e)) = removed s (written s contents fs) (some e)
after_staging s p content fs none =
    let (after, failure) =
      run_polkit_script p (install_script p s.tmp_name) (written s content fs) in
    removed s after failure

abbrev pub after_creation :
    Staging → Polkit → Text → FileSystem → Option Text → FileSystem × Option Text
after_creation s p content fs (some e) = (fs, some (text "创建临时文件失败: " ++ e))
after_creation s p content fs none = after_staging s p content fs (stage_failure s content)

-- The files after the call, and its error.
unfoldable pub apply_zone_forward : Staging → Polkit → Text → FileSystem → FileSystem × Option Text
apply_zone_forward s p content fs = after_creation s p content fs s.create_error

unfoldable pub remove_zone_forward : Polkit → FileSystem → FileSystem × Option Text
remove_zone_forward p fs =
    run_polkit_script p
      (text "rm -f "
        ++ (p.quoted resolved_drop_in_path ++ text " && systemctl restart systemd-resolved"))
      fs
