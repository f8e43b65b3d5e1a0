-- ===== src/QueryTool.antt =====
-- cmd/querydns/main.go: the query tool, with its own requests and its own HTTP client.
pub mod Agreement
use ssh_tunnel_manager.BaiduDns.{
  Api, DnsRecord, ListError, request_failed, body_unreadable, bad_status, bad_json, Listed, listed,
  list_error, Request, Response, no_response, broken_body, response,
}
use ssh_tunnel_manager.BaiduDns.Account.{find_key, in_dir}
use ssh_tunnel_manager.Bcd.{
  Credentials, credentials, credentials_error, load_credentials, base_url, canonical_uri,
  sign_request,
}
use ssh_tunnel_manager.Common.{
  ℕ, zero, suc, List, [], ◌∷◌, ◌++◌, Option, none, some, Text, text, ℤ, int_text, if◌then◌else◌,
  length, ltb, not, ◌||◌,
}
use ssh_tunnel_manager.Common.Maps.{lookup}
use ssh_tunnel_manager.Common.Strings.{decimal}
use ssh_tunnel_manager.Files.{FileSystem}
use ssh_tunnel_manager.Paths.{join_path}

-- The HTTP client of the tool, without a proxy and with its own time limit, and `json.Marshal` on a string.
-- The other packages are those of `Api`.
pub record Client : Type 0 where
  pub sends : Request → Response
  pub marshal : Text → Text

-- `json.Marshal` on the map of the three fields: the keys are in their order.
abbrev pub tool_body : Client → Text → ℕ → Text
tool_body client zone page_no =
    text "{\"domain\":"
    ++ (client.marshal zone
        ++ (text ",\"pageNo\":" ++ (decimal page_no ++ text ",\"pageSize\":100}")))

unfoldable pub tool_request : Api → Client → Text → Text → Text → ℕ → Request
tool_request api client ak sk zone page_no = record {
  url = base_url ++ canonical_uri (text "/v1/domain/resolve/list");
  authorization =
      sign_request api.hmac_sha256 ak sk (text "POST") (text "/v1/domain/resolve/list")
        (api.now page_no);
  body = tool_body client zone page_no;
}

-- The records of one page, or the error with which the tool ends.
pub data ToolPage : Type 0 where
  fails : ListError → ToolPage
  result : List Text → ToolPage

abbrev pub unmarshalled : Option (List Text) → ToolPage
unmarshalled none = fails bad_json
unmarshalled (some records) = result records

unfoldable pub tool_page : Api → Response → ToolPage
tool_page api no_response = fails request_failed
tool_page api (broken_body status) = fails body_unreadable
tool_page api (response status body) =
    if ltb status 200 || not (ltb status 300)
    then fails bad_status
    else unmarshalled (api.decode_page body)

-- The loop over the pages.
unfoldable pub query_pages : Api → Client → Text → Text → Text → ℕ → ℕ → List Text → Listed
query_pages api client ak sk zone zero page_no all = listed all
query_pages api client ak sk zone (suc left) page_no all =
    elim (tool_page api (client.sends (tool_request api client ak sk zone page_no))) [
      | fails e ↦ list_error e
      | result records ↦
          let rest = query_pages api client ak sk zone left (suc page_no) (all ++ records) in
          if ltb (length records) 100 then listed (all ++ records) else rest
    ]

-- `loadCredentials`: `none` when there is no file.
unfoldable pub find_credentials : Option Text → FileSystem → Option Credentials
find_credentials exe_dir fs = elim (find_key (in_dir exe_dir (text "baidu.key" ∷ [])) fs) [
  | none ↦ none
  | some path ↦ some (load_credentials (lookup path fs))
]

-- What the tool decodes of a record to print it, with its TTL; `none` is a parse error.
pub data Output : Type 0 where
  usage : Output
  no_key_file key_file_refused : Output
  query_failed : ListError → Output
  printed : List Text → Output

abbrev bracketed : ℕ → Text
bracketed i = text "[" ++ (decimal i ++ text "]")

abbrev line_of : ℕ → DnsRecord × ℤ → Text
line_of i (r, ttl) =
    bracketed i
    ++ (text " domain="
        ++ (r.domain
            ++ (text " rdtype="
                ++ (r.rd_type
                    ++ (text " rdata="
                        ++ (r.rd_data
                            ++ (text " status="
                                ++ (r.status ++ (text " ttl=" ++ int_text ttl)))))))))

-- The lines on standard output; a record that cannot be parsed has none.
unfoldable pub print_records : (Text → Option (DnsRecord × ℤ)) → ℕ → List Text → List Text
print_records decode i [] = []
print_records decode i (raw ∷ raws) =
    let rest = print_records decode (suc i) raws in
    elim (decode raw) [ none ↦ rest | some r ↦ line_of i r ∷ rest ]

abbrev report : (Text → Option (DnsRecord × ℤ)) → Listed → Output
report decode (list_error e) = query_failed e
report decode (listed all) =
    printed (
      (text "=== Records (" ++ (decimal (length all) ++ text ") ===")) ∷ print_records decode 0 all)

abbrev with_credentials :
    Api → Client → (Text → Option (DnsRecord × ℤ)) → Text → Option Credentials → Output
with_credentials api client decode zone none = no_key_file
with_credentials api client decode zone (some (credentials_error e)) = key_file_refused
with_credentials api client decode zone (some (credentials ak sk)) =
    report decode (query_pages api client ak sk zone 10 1 [])

-- `main`: `args` are the arguments after the name of the program.
unfoldable pub query_main :
    Api → Client → (Text → Option (DnsRecord × ℤ)) → Option Text → FileSystem → List Text → Output
query_main api client decode exe_dir fs [] = usage
query_main api client decode exe_dir fs (zone ∷ args) =
    with_credentials api client decode zone (find_credentials exe_dir fs)
