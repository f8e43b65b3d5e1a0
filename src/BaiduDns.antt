-- ===== src/BaiduDns.antt =====
-- baidu_dns.go: the client of the Baidu DNS API. The credentials are those that `InitBaiduDNS` has
-- loaded.
pub mod Paging
pub mod Zone
pub mod Records
pub mod Account
use ssh_tunnel_manager.Bcd.{canonical_uri, sign_request}
use ssh_tunnel_manager.Common.{
  ℕ, zero, suc, ◌&&◌, ◌||◌, Bool, true, false, not, List, [], ◌∷◌, ◌++◌, Option, none, some, Text,
  text, equal, ltb, leb, if◌then◌else◌, length,
}
use ssh_tunnel_manager.Common.Strings.{trim_suffix, decimal}
use ssh_tunnel_manager.SshCommand.{is_empty}

pub record DnsTarget : Type 0 where
  pub access_key : Text
  pub secret_key : Text
  pub zone : Text
  pub api_base : Text

unfoldable pub new_dns_target : Text → Text → Text → Text → DnsTarget
new_dns_target access_key secret_key zone api_base = record {
  access_key = access_key;
  secret_key = secret_key;
  zone = zone;
  api_base = trim_suffix api_base (text "/");
}

-- A POST request, with the two headers that do not vary left out.
pub record Request : Type 0 where
  pub url : Text
  pub authorization : Text
  pub body : Text

-- What comes back: nothing, a status with a body that breaks off, or a status with its body.
pub data Response : Type 0 where
  no_response : Response
  broken_body : ℕ → Response
  response : ℕ → Text → Response

-- The fields of a DNS record that the source reads.
pub record DnsRecord : Type 0 where
  pub domain : Text
  pub rd_type : Text
  pub rd_data : Text
  pub status : Text

-- The packages net/http, time, crypto/hmac, fmt (`%q`) and encoding/json, net.ParseIP and
-- publicsuffix. `now` is the time of the request for a page; `decode_record` is `none` for a raw record
-- that is not of the shape.
pub record Api : Type 0 where
  pub send : Request → Response
  pub now : ℕ → Text
  pub hmac_sha256 : Text → Text → Text
  pub quoted : Text → Text
  pub decode_page : Text → Option (List Text)
  pub decode_record : Text → Option DnsRecord
  pub is_ip_literal : Text → Bool
  pub effective_tld_plus_one : Text → Option Text
  -- `strings.ToLower`, which goes by the tables of Unicode.
  pub lower_case : Text → Text

pub data ListError : Type 0 where
  request_failed body_unreadable bad_status bad_json : ListError

pub data Listed : Type 0 where
  listed : List Text → Listed
  list_error : ListError → Listed

abbrev pub page_size : ℕ
page_size = 100

abbrev pub max_pages : ℕ
max_pages = 10

abbrev list_path : Text
list_path = text "/v1/domain/resolve/list"

abbrev request_body : Api → Text → ℕ → Text
request_body api zone page_no =
    text "{\"domain\":"
    ++ (api.quoted zone
        ++ (text ",\"pageNo\":"
            ++ (decimal page_no ++ (text ",\"pageSize\":" ++ (decimal page_size ++ text "}")))))

unfoldable pub request : Api → DnsTarget → ℕ → Request
request api d page_no = record {
  url = d.api_base ++ canonical_uri list_path;
  authorization =
      sign_request api.hmac_sha256 d.access_key d.secret_key (text "POST") list_path
        (api.now page_no);
  body = request_body api d.zone page_no;
}

-- What one page is worth: an error, an empty body, or its records.
pub data Page : Type 0 where
  page_error : ListError → Page
  empty_body : Page
  page : List Text → Page

abbrev pub decoded : Option (List Text) → Page
decoded none = page_error bad_json
decoded (some records) = page records

abbrev pub page_of : Api → Response → Page
page_of api no_response = page_error request_failed
page_of api (broken_body status) = page_error body_unreadable
page_of api (response status body) =
    if ltb status 200 || not (ltb status 300)
    then page_error bad_status
    else if is_empty body
    then empty_body
    else decoded (api.decode_page body)

unfoldable pub get_page : Api → DnsTarget → ℕ → Page
get_page api d page_no = page_of api (api.send (request api d page_no))

-- The loop of `listRecords` with the number of pages that are left.
unfoldable pub list_pages : Api → DnsTarget → ℕ → ℕ → List Text → Listed
list_pages api d zero page_no all = listed all
list_pages api d (suc left) page_no all = elim (get_page api d page_no) [
  | page_error e ↦ list_error e
  | empty_body ↦ listed all
  | page records ↦
      let rest = list_pages api d left (suc page_no) (all ++ records) in
      if ltb (length records) page_size then listed (all ++ records) else rest
]

unfoldable pub list_records : Api → DnsTarget → Listed
list_records api d = list_pages api d max_pages 1 []

-- The test of a record against the subdomain.
abbrev pub matches : Text → DnsRecord → Bool
matches sub r =
    equal r.domain sub
    && (equal r.status (text "RUNNING")
        && (equal r.rd_type (text "A") || equal r.rd_type (text "AAAA")))

unfoldable pub find_record : Api → Text → List Text → Option Text
find_record api sub [] = none
find_record api sub (raw ∷ raws) =
    let rest = find_record api sub raws in
    elim (api.decode_record raw) [
      | none ↦ rest
      | some r ↦ if matches sub r then some r.rd_data else rest
    ]

-- `none` is an error of any kind.
unfoldable pub query_baidu_dns_ip_with_base : Api → Text → Text → Text → Text → Text → Option Text
query_baidu_dns_ip_with_base api access_key secret_key zone sub api_base =
    elim (list_records api (new_dns_target access_key secret_key zone api_base)) [
      | list_error e ↦ none
      | listed records ↦ find_record api sub records
    ]

unfoldable pub derive_zone_and_sub : Api → Text → Text × Text
derive_zone_and_sub api host =
    let name = api.lower_case (trim_suffix host (text ".")) in
    elim (api.effective_tld_plus_one name) [
      | none ↦ (name, text "@")
      | some zone ↦
          if equal name zone then (zone, text "@") else (zone, trim_suffix name (b'.' ∷ zone))
    ]

-- `credentials` is what `baiduCredentials` returns, `none` when nothing is loaded; `api_base` is
-- `baiduAPIBase()`.
unfoldable pub resolve_real_ip : Api → Option (Text × Text) → Text → Text → Option Text
resolve_real_ip api none api_base host = none
resolve_real_ip api (some (ak, sk)) api_base host =
    if is_empty ak || is_empty sk
    then none
    else if api.is_ip_literal host
    then none
    else (let (zone, sub) = derive_zone_and_sub api host in
        query_baidu_dns_ip_with_base api ak sk zone sub api_base)
