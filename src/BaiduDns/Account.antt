-- ===== src/BaiduDns/Account.antt =====
-- baidu_dns.go: the credentials that are loaded at the start.
use ssh_tunnel_manager.Bcd.{Credentials, credentials, credentials_error, load_credentials}
use ssh_tunnel_manager.Common.{
  List, [], ◌∷◌, ◌++◌, Option, none, some, Text, text, if◌then◌else◌, length, leb, take,
}
use ssh_tunnel_manager.Common.Maps.{lookup}
use ssh_tunnel_manager.Files.{FileSystem}
use ssh_tunnel_manager.Paths.{join_path}

-- The first candidate that is a file.
unfoldable pub find_key : List Text → FileSystem → Option Text
find_key [] fs = none
find_key (p ∷ ps) fs =
    let rest = find_key ps fs in elim (lookup p fs) [ none ↦ rest | some content ↦ some p ]

abbrev pub in_dir : Option Text → List Text → List Text
in_dir none ps = ps
in_dir (some dir) ps = join_path dir (text "baidu.key") ∷ ps

-- The directory of the executable, the config directory (`none` when one is not known), and the working
-- directory.
unfoldable pub find_baidu_key : Option Text → Option Text → FileSystem → Option Text
unfolding find_key
find_baidu_key exe_dir config_dir fs =
    find_key (in_dir exe_dir (in_dir config_dir (text "baidu.key" ∷ []))) fs

abbrev pub loaded : Credentials → Option (Text × Text)
loaded (credentials ak sk) = some (ak, sk)
loaded (credentials_error e) = none

-- `InitBaiduDNS`: what `baiduCredentials` returns from then on.
unfoldable pub init_baidu_dns : Option Text → Option Text → FileSystem → Option (Text × Text)
unfolding find_baidu_key
init_baidu_dns exe_dir config_dir fs = elim (find_baidu_key exe_dir config_dir fs) [
  | none ↦ none
  | some path ↦ loaded (load_credentials (lookup path fs))
]

unfoldable pub mask_ak : Text → Text
mask_ak ak = if leb (length ak) 4 then text "***" else take 4 ak ++ text "***"
