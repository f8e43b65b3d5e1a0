-- ===== src/ZoneForward.antt =====
-- zone_forward.go: the drop-in file for systemd-resolved.
pub mod Content
pub mod Install
pub mod Staged
use ssh_tunnel_manager.Common.{
  Bool, true, false, not, ◌&&◌, List, [], ◌∷◌, ◌++◌, Option, none, some, Text, text, any, equal,
  if◌then◌else◌,
}
use ssh_tunnel_manager.Common.Sort.{sort_strings}
use ssh_tunnel_manager.Common.Strings.{join, trim_space}

-- What DNS answers: `lookup_ns` gives the hosts of the NS records, `lookup_host` the addresses.
pub record Dns : Type 0 where
  pub lookup_ns : Text → Option (List Text)
  pub lookup_host : Text → Option (List Text)

pub data ZoneError : Type 0 where
  ns_lookup_failed no_ns_address : ZoneError

pub data ZoneResult : Type 0 where
  found : List Text → ZoneResult
  not_found : ZoneError → ZoneResult

-- `seen`: the addresses that have been kept so far.
abbrev pub is_seen : List Text → Text → Bool
is_seen ips a = any (λ x. equal x a) ips

unfoldable pub add_addresses : List Text → List Text → List Text
add_addresses ips [] = ips
add_addresses ips (a ∷ addrs) =
    let skipped = add_addresses ips addrs in
    let added = add_addresses (ips ++ (a ∷ [])) addrs in if is_seen ips a then skipped else added

abbrev pub addresses : Option (List Text) → List Text
addresses none = []
addresses (some addrs) = addrs

unfoldable pub collect : Dns → List Text → List Text → List Text
unfolding add_addresses
collect dns ips [] = ips
collect dns ips (ns ∷ nss) = collect dns (add_addresses ips (addresses (dns.lookup_host ns))) nss

abbrev pub some_found : List Text → ZoneResult
some_found [] = not_found no_ns_address
some_found (ip ∷ ips) = found (ip ∷ ips)

unfoldable pub lookup_zone_ns_ips : Dns → Text → ZoneResult
unfolding collect
lookup_zone_ns_ips dns zone = elim (dns.lookup_ns zone) [
  | none ↦ not_found ns_lookup_failed
  | some nss ↦ some_found (collect dns [] nss)
]

abbrev routing_domains : List Text → List Text
routing_domains [] = []
routing_domains (z ∷ zs) = (b'~' ∷ z) ∷ routing_domains zs

unfoldable pub generate_zone_forward_config : List Text → List Text → Text
generate_zone_forward_config zones dns_ips =
    text "# Managed by ssh-tunnel-manager — do not edit.\n"
    ++ (text "# Routes the tunneled domain straight to its authoritative\n"
        ++ (text "# nameservers, bypassing recursive caches that serve stale\n"
            ++ (text "# records for low-TTL DDNS names.\n"
                ++ (text "[Resolve]\n"
                    ++ (text "DNS="
                        ++ (join (sort_strings dns_ips) (b' ' ∷ [])
                            ++ (text "\n"
                                ++ (text "Domains="
                                    ++ (join (routing_domains (sort_strings zones)) (b' ' ∷ [])
                                        ++ text "\n")))))))))

pub data Rendered : Type 0 where
  content : Text → Rendered
  no_content : ZoneError → Rendered

unfoldable pub expected_zone_forward_content : Dns → Text → Rendered
unfolding lookup_zone_ns_ips generate_zone_forward_config
expected_zone_forward_content dns zone = elim (lookup_zone_ns_ips dns zone) [
  | not_found e ↦ no_content e
  | found ips ↦ content (generate_zone_forward_config (zone ∷ []) ips)
]

-- `installed` and `upToDate`; the argument is the drop-in file, `none` when it cannot be read.
unfoldable pub zone_forward_status : Option Text → Text → Bool × Bool
zone_forward_status none expected = (false, false)
zone_forward_status (some written) expected =
    (true, equal (trim_space written) (trim_space expected))
