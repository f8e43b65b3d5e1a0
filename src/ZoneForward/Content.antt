-- ===== src/ZoneForward/Content.antt =====
-- zone_forward.go: the drop-in does not depend on the order in which the resolver answers, and names
-- each server once.
use mathlib.Core.List.{Permᴰ, cons-ne-nil}
use ssh_tunnel_manager.Common.{
  ◌≡◌, ◌≢◌, refl, false, List, [], ◌∷◌, ◌++◌, Text, arith, equal_iff, Bool-cases, inl, inr,
  Option-cases,
}
use ssh_tunnel_manager.Common.Sort.{LacksText, sort_strings_perm}
use ssh_tunnel_manager.ZoneForward.{
  addresses, some_found, Dns, ZoneResult, found, not_found, is_seen, add_addresses, collect,
  lookup_zone_ns_ips, generate_zone_forward_config,
}

-- The same zones and the same servers in any order give the same file, byte for byte.
pub generate_zone_forward_config_perm :
    {zones zones' ips ips' : List Text}
    → Permᴰ zones zones'
    → Permᴰ ips ips'
    → generate_zone_forward_config zones ips ≡ generate_zone_forward_config zones' ips'
unfolding generate_zone_forward_config
generate_zone_forward_config_perm z i = rw (sort_strings_perm z, sort_strings_perm i) refl

abbrev pub NoDup : List Text → Type 0
NoDup [] = Unit
NoDup (x ∷ xs) = LacksText x xs × NoDup xs

LacksText-snoc :
    (x a : Text) (xs : List Text) → a ≢ x → LacksText x xs → LacksText x (xs ++ (a ∷ []))
LacksText-snoc x a [] ne h = (ne, tt)
LacksText-snoc x a (y ∷ ys) ne (h, hs) = (h, LacksText-snoc x a ys ne hs)

NoDup-snoc : (a : Text) (xs : List Text) → is_seen xs a ≡ false → NoDup xs → NoDup (xs ++ (a ∷ []))
NoDup-snoc a [] h n = (tt, tt)
NoDup-snoc a (x ∷ xs) h (l, n) =
    (LacksText-snoc x a xs (ground (arith, equal_iff x a)) l, NoDup-snoc a xs (ground arith) n)

add_addresses-NoDup : (ips addrs : List Text) → NoDup ips → NoDup (add_addresses ips addrs)
unfolding add_addresses
add_addresses-NoDup ips [] n = n
add_addresses-NoDup ips (a ∷ addrs) n = elim (Bool-cases (is_seen ips a)) [
  | inl s ↦ rw (s, add_addresses) (add_addresses-NoDup ips addrs n)
  | inr f ↦
      rw (f, add_addresses) (add_addresses-NoDup (ips ++ (a ∷ [])) addrs (NoDup-snoc a ips f n))
]

collect-NoDup : (dns : Dns) (ips nss : List Text) → NoDup ips → NoDup (collect dns ips nss)
unfolding collect
collect-NoDup dns ips [] n = n
collect-NoDup dns ips (ns ∷ nss) n =
    collect-NoDup dns (add_addresses ips (addresses (dns.lookup_host ns))) nss
      (add_addresses-NoDup ips (addresses (dns.lookup_host ns)) n)

-- What a result satisfies.
abbrev pub IsFound : ZoneResult → Type 0
IsFound (not_found e) = Unit
IsFound (found ips) = NoDup ips × (ips ≢ [])

-- Whatever DNS answers, the addresses that are found for a zone are at least one, and none is there
-- twice.
pub lookup_zone_ns_ips-IsFound : (dns : Dns) (zone : Text) → IsFound (lookup_zone_ns_ips dns zone)
unfolding lookup_zone_ns_ips
lookup_zone_ns_ips-IsFound dns zone = elim (Option-cases (dns.lookup_ns zone)) [
  | inl n ↦ rw (n, lookup_zone_ns_ips) tt
  | inr (nss, e) ↦ rw (e, lookup_zone_ns_ips) (at_least_one _ (collect-NoDup dns [] nss tt))
]
  where
    at_least_one : (ips : List Text) → NoDup ips → IsFound (some_found ips)
    at_least_one [] n = tt
    at_least_one (ip ∷ ips) n = (n, λ e. cons-ne-nil ip ips e)
