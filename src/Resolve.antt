-- ===== src/Resolve.antt =====
-- ssh.go: which address a tunnel connects to, and where the DDNS heartbeat gets the current ones.
use ssh_tunnel_manager.Common.{
  Bool, true, false, text, ◌++◌, if◌then◌else◌, Text, List, [], ◌∷◌, Option, none, some,
}
use ssh_tunnel_manager.SshCommand.{is_empty}

-- What the network answers at one moment: `real_ip` is `ResolveRealIP` of baidu_dns.go, `none` when
-- it is not ok; `lookup_host` is `ResolveHost`, `none` when it returns an error.
pub record Net : Type 0 where
  pub real_ip : Text → Option Text
  pub lookup_host : Text → Option (List Text)

-- The two errors of `resolveConnectTarget`.
pub data ResolveError : Type 0 where
  lookup_failed no_ips : ResolveError

-- The source returns the address twice, as the host and as the IP.
pub data Target : Type 0 where
  target : Text → Text → Target
  unresolved : ResolveError → Target

first_target : List Text → Target
first_target [] = unresolved no_ips
first_target (ip ∷ ips) = target ip ip

-- The flush of the DNS cache on the first branch has no effect on the result, whether it fails or not.
unfoldable pub resolve_connect_target : Net → Text → Target
unfolding first_target
resolve_connect_target net remote_host = elim (net.real_ip remote_host) [
  | some real_ip ↦ target real_ip real_ip
  | none ↦ elim (net.lookup_host remote_host) [
    | none ↦ unresolved lookup_failed
    | some ips ↦ first_target ips
  ]
]

nonempty : List Text → Option (List Text)
nonempty [] = none
nonempty (ip ∷ ips) = some (ip ∷ ips)

unfoldable pub fresh_ips : Net → Text → Option (List Text)
unfolding nonempty
fresh_ips net host = elim (net.real_ip host) [
  | some ip ↦ some (ip ∷ [])
  | none ↦ elim (net.lookup_host host) [ none ↦ none | some ips ↦ nonempty ips ]
]

-- The two ways of the net package: the system's resolver, and the one that asks a given server.
pub record Resolver : Type 0 where
  pub system : Text → Option (List Text)
  pub at_server : Text → Text → Option (List Text)

-- `ResolveHost`; `dns_resolver` is the variable of the package.
unfoldable pub resolve_host : Resolver → Text → Text → Option (List Text)
resolve_host r dns_resolver host =
    if is_empty dns_resolver then r.system host else r.at_server (dns_resolver ++ text ":53") host

pub data Os : Type 0 where
  windows darwin linux other_os : Os

pub data FlushCommand : Type 0 where
  ipconfig dscacheutil killall resolvectl systemd_resolve nscd : FlushCommand

abbrev linux_flush : (FlushCommand → Bool) → List FlushCommand × Bool
linux_flush works =
    if works resolvectl
    then (resolvectl ∷ [], true)
    else if works systemd_resolve
    then (resolvectl ∷ systemd_resolve ∷ [], true)
    else (resolvectl ∷ systemd_resolve ∷ nscd ∷ [], works nscd)

-- `FlushDNS`: the commands that are run, and whether there is no error.
unfoldable pub flush_dns : Os → (FlushCommand → Bool) → List FlushCommand × Bool
flush_dns windows works = (ipconfig ∷ [], works ipconfig)
flush_dns darwin works =
    if works dscacheutil then (dscacheutil ∷ killall ∷ [], true) else (dscacheutil ∷ [], false)
flush_dns linux works = linux_flush works
flush_dns other_os works = ([], false)
