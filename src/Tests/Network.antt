-- ===== src/Tests/Network.antt =====
-- The Baidu DNS client of baidu_dns.go and the test request of ui.go.
use mathlib.Core.Option.{none-ne-some, some-injective}
use ssh_tunnel_manager.BaiduDns.{
  query_baidu_dns_ip_with_base, list_pages, new_dns_target, find_record, Api, DnsTarget, response,
  request, get_page, page, list_records, listed, max_pages, derive_zone_and_sub,
}
use ssh_tunnel_manager.BaiduDns.Paging.{zone_page, list_records-take}
use ssh_tunnel_manager.BaiduDns.Records.{Holds, query_baidu_dns_ip_with_base-Holds}
use ssh_tunnel_manager.BaiduDns.Zone.{
  IsSuffixList, Rejoins, normal_name, zone_of_name, derive_zone_and_sub-Rejoins,
}
use ssh_tunnel_manager.Common.{
  ap, equal_iff, Bool-cases, ℕ, zero, suc, ◌<◌, ◌≡◌, refl, sym, inl, inr, false, List, [], ◌∷◌,
  ◌++◌, Option, none, some, Text, text, if◌then◌else◌, equal, take, arith, ◌∙◌,
}
use ssh_tunnel_manager.Common.Int.{int_text}
use ssh_tunnel_manager.Common.Strings.{
  contains, equal, decimal, to_lower, trim_suffix, strip_prefix,
}
use ssh_tunnel_manager.TestApi.{test_request, join_host_port}
use ssh_tunnel_manager.Tests.Home.{home}

-- A zone with one record, and an API that knows the request for its first page by the time.
abbrev zone : List Text
zone = text "www" ∷ []

abbrev suffix : Text → Option Text
suffix name = if equal name (text "www.example.com") then some (text "example.com") else none

abbrev pub api : Api
api = record {
  send = λ r. response 200 r.body;
  now = λ n. [];
  hmac_sha256 = λ k t. [];
  quoted = λ t. t;
  decode_page = λ body. some (
      if equal body (text "{\"domain\":example.com,\"pageNo\":1,\"pageSize\":100}")
      then zone
      else []);
  decode_record = λ t. none;
  is_ip_literal = λ t. false;
  effective_tld_plus_one = suffix;
  lower_case = to_lower;
}

abbrev pub target : DnsTarget
target = record {
  access_key = [];
  secret_key = [];
  zone = text "example.com";
  api_base = text "https://api";
}

pages : (i : ℕ) → i < max_pages → get_page api target (suc i) ≡ page (zone_page zone i)
unfolding get_page request decimal equal
pages zero h = refl
pages (suc zero) h = refl
pages (suc (suc zero)) h = refl
pages (suc (suc (suc zero))) h = refl
pages (suc (suc (suc (suc zero)))) h = refl
pages (suc (suc (suc (suc (suc zero))))) h = refl
pages (suc (suc (suc (suc (suc (suc zero)))))) h = refl
pages (suc (suc (suc (suc (suc (suc (suc zero))))))) h = refl
pages (suc (suc (suc (suc (suc (suc (suc (suc zero)))))))) h = refl
pages (suc (suc (suc (suc (suc (suc (suc (suc (suc zero))))))))) h = refl
pages (suc (suc (suc (suc (suc (suc (suc (suc (suc (suc i)))))))))) h = absurd (omega arith)

list_records-take_example : list_records api target ≡ listed (take 1000 zone)
list_records-take_example = list_records-take api target zone pages

suffixes : IsSuffixList api
suffixes name z e = elim (Bool-cases (equal name (text "www.example.com"))) [
  | inl y ↦
      let found : some (text "example.com") ≡ some z = sym (rw (y, suffix) refl) ∙ e in
      inr (
        text "www",
        (equal_iff name (text "www.example.com")).0 y
            ∙ ap (λ t. text "www." ++ t) (some-injective _ _ found),
      )
  | inr f ↦ absurd (none-ne-some z (sym (rw (f, suffix) refl) ∙ e))
]

derive_zone_and_sub-Rejoins_example :
    Rejoins
      (normal_name api (text "WWW.example.com."))
      (derive_zone_and_sub api (text "WWW.example.com."))
    × ((derive_zone_and_sub api (text "WWW.example.com.")).0
        ≡ zone_of_name api (normal_name api (text "WWW.example.com.")))
derive_zone_and_sub-Rejoins_example =
    derive_zone_and_sub-Rejoins api (text "WWW.example.com.") suffixes

zone_and_sub : derive_zone_and_sub api (text "WWW.example.com.") ≡ (text "example.com", text "www")
unfolding derive_zone_and_sub trim_suffix strip_prefix to_lower equal
zone_and_sub = refl

-- A zone whose record runs.
abbrev pub running_api : Api
running_api = record api {
  decode_record = λ t. some (record {
    domain = t;
    rd_type = text "A";
    rd_data = text "192.0.2.7";
    status = text "RUNNING";
  });
}

www_address :
    query_baidu_dns_ip_with_base running_api [] []
      (text "example.com")
      (text "www")
      (text "https://api")
    ≡ some (text "192.0.2.7")
unfolding query_baidu_dns_ip_with_base list_records list_pages new_dns_target get_page request
    decimal equal find_record trim_suffix strip_prefix
www_address = refl

query_baidu_dns_ip_with_base-Holds_example :
    (records : List Text) × (list_records running_api
        (new_dns_target [] [] (text "example.com") (text "https://api"))
      ≡ listed records)
    × Holds running_api (text "www") records (text "192.0.2.7")
query_baidu_dns_ip_with_base-Holds_example =
    query_baidu_dns_ip_with_base-Holds running_api [] [] (text "example.com") (text "www")
      (text "https://api") (text "192.0.2.7") www_address

test_url :
    (test_request (record home { local_host = text "::1" }) (text "k")).url
    ≡ text "http://[::1]:8080/v1/messages"
unfolding test_request join_host_port contains equal int_text
test_url = refl
