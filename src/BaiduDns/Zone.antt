-- ===== src/BaiduDns/Zone.antt =====
-- baidu_dns.go: a host name and the zone and subdomain that it is split into.
use mathlib.Core.Bool.{false≢true}
use mathlib.Core.List.{reverse, reverse-append, reverse-reverse}
use ssh_tunnel_manager.BaiduDns.{Api, derive_zone_and_sub}
use ssh_tunnel_manager.Common.{
  ◌≡◌, ◌≢◌, refl, sym, ap, ◌∙◌, ◌⊎◌, inl, inr, false, [], ◌∷◌, ◌++◌, none, some, Text, text, equal,
  equal_iff, Bool-cases, Option-cases, arith,
}
use ssh_tunnel_manager.Common.Strings.{trim_suffix, strip_prefix}

strip_prefix-append : (p s : Text) → strip_prefix p (p ++ s) ≡ some s
unfolding strip_prefix
strip_prefix-append [] s = refl
strip_prefix-append (x ∷ p) s = ground (arith, strip_prefix-append p s)

trim_suffix-append : (s suffix : Text) → trim_suffix (s ++ suffix) suffix ≡ s
unfolding trim_suffix
trim_suffix-append s suffix =
    rw (reverse-append s suffix, trim_suffix)
      (rw (strip_prefix-append (reverse suffix) (reverse s), trim_suffix) (reverse-reverse s))

-- The documented behaviour of publicsuffix.EffectiveTLDPlusOne: a zone is the name itself or ends the
-- name after a dot.
abbrev pub IsSuffixList : Api → Type 0
IsSuffixList api =
    (name zone : Text)
    → api.effective_tld_plus_one name ≡ some zone
    → (name ≡ zone) ⊎ ((sub : Text) × (name ≡ sub ++ (b'.' ∷ zone)))

-- The name without its last dot, in lower case.
abbrev pub normal_name : Api → Text → Text
normal_name api host = api.lower_case (trim_suffix host (text "."))

-- Zone and subdomain put together give the name: the zone alone with "@", or both around a dot where the
-- zone is not the name.
abbrev pub Rejoins : Text → Text × Text → Type 0
Rejoins name (zone, sub) =
    ((sub ≡ text "@") × (zone ≡ name)) ⊎ ((zone ≢ name) × (sub ++ (b'.' ∷ zone) ≡ name))

-- The zone that the suffix list gives for a name, or the name itself where it gives none.
abbrev pub zone_of_name : Api → Text → Text
zone_of_name api name = elim (api.effective_tld_plus_one name) [ none ↦ name | some zone ↦ zone ]

-- With a suffix list that ends a name with its zone, the zone and the subdomain of a host name put
-- together give the name in lower case and without a last dot, the subdomain is "@" where the zone is the
-- whole name, and the zone is the one that the list gives for the name, or the name where it gives none.
pub derive_zone_and_sub-Rejoins :
    (api : Api) (host : Text)
    → IsSuffixList api
    → Rejoins (normal_name api host) (derive_zone_and_sub api host)
      × ((derive_zone_and_sub api host).0 ≡ zone_of_name api (normal_name api host))
unfolding derive_zone_and_sub
derive_zone_and_sub-Rejoins api host suffixes =
    elim (Option-cases (api.effective_tld_plus_one (normal_name api host))) [
      | inl n ↦ rw (n, derive_zone_and_sub) (inl (refl, refl), rw (n, zone_of_name) refl)
      | inr (zone, e) ↦
          rw (e, derive_zone_and_sub)
            (elim (Bool-cases (equal (normal_name api host) zone)) [
              | inl y ↦ rw y (
                inl (refl, sym ((equal_iff (normal_name api host) zone).0 y)),
                rw (e, zone_of_name) refl,
              )
              | inr f ↦ rw f (
                inr (other zone f, split_name zone f (suffixes (normal_name api host) zone e)),
                rw (e, zone_of_name) refl,
              )
            ])
    ]
  where
    other : (zone : Text) → equal (normal_name api host) zone ≡ false → zone ≢ normal_name api host
    other zone f e = false≢true (sym f ∙ (equal_iff (normal_name api host) zone).1 (sym e))

    split_name :
        (zone : Text)
        → equal (normal_name api host) zone ≡ false
        → (normal_name api host ≡ zone)
          ⊎ ((sub : Text) × (normal_name api host ≡ sub ++ (b'.' ∷ zone)))
        → trim_suffix (normal_name api host) (b'.' ∷ zone) ++ (b'.' ∷ zone) ≡ normal_name api host
    split_name zone f (inl same) =
        absurd (false≢true (sym f ∙ (equal_iff (normal_name api host) zone).1 same))
    split_name zone f (inr (sub, e)) =
        ap (λ n. trim_suffix n (b'.' ∷ zone) ++ (b'.' ∷ zone)) e
        ∙ ap (λ s. s ++ (b'.' ∷ zone)) (trim_suffix-append sub (b'.' ∷ zone))
        ∙ sym e
