-- ===== src/Tests/Texts.antt =====
-- Key files, signed paths and drop-in files of bcd.go and zone_forward.go.
use mathlib.Core.List.{Permᴰ}
use ssh_tunnel_manager.Bcd.{read_line, load_credentials, credentials, canonical_uri}
use ssh_tunnel_manager.Bcd.Uri.{map-decode-canonical_uri, decode, segments}
use ssh_tunnel_manager.Common.{◌≡◌, refl, [], ◌∷◌, some, Text, text, map, All, ◌<◌, arith}
use ssh_tunnel_manager.Common.Strings.{split, cut, replace_all, trim_space, equal, to_lower}
use ssh_tunnel_manager.ZoneForward.{Dns, generate_zone_forward_config}
use ssh_tunnel_manager.ZoneForward.Content.{generate_zone_forward_config_perm}

abbrev key_file : Text
key_file = text "AK: old\nak: 1234\n\nSecret：abcd\n"

key_file_read : load_credentials (some key_file) ≡ credentials (text "1234") (text "abcd")
unfolding load_credentials split read_line cut replace_all trim_space equal to_lower
key_file_read = refl

abbrev path : Text
path = text "/v1/a b/"

path_bytes : All (λ b. b < 256) path
path_bytes = (
  omega arith,
  (
    omega arith,
    (omega arith, (omega arith, (omega arith, (omega arith, (omega arith, (omega arith, tt)))))),
  ),
)

map-decode-canonical_uri_example : map decode (segments (canonical_uri path)) ≡ segments path
map-decode-canonical_uri_example = map-decode-canonical_uri path path_bytes

abbrev server1 : Text
server1 = text "192.0.2.53"

abbrev server2 : Text
server2 = text "198.51.100.53"

generate_zone_forward_config_perm_example :
    generate_zone_forward_config (text "example.com" ∷ []) (server2 ∷ server1 ∷ [])
    ≡ generate_zone_forward_config (text "example.com" ∷ []) (server1 ∷ server2 ∷ [])
generate_zone_forward_config_perm_example =
    generate_zone_forward_config_perm (Permᴰ.cons refl Permᴰ.nil) (Permᴰ.swap refl refl)

abbrev dns : Dns
dns = record {
  lookup_ns = λ _. some (text "ns1" ∷ text "ns2" ∷ []);
  lookup_host = λ _. some (server1 ∷ server2 ∷ server1 ∷ []);
}
