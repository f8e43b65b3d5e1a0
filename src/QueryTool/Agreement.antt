-- ===== src/QueryTool/Agreement.antt =====
-- cmd/querydns/main.go and baidu_dns.go: when the tool gets the same records as the app.
use ssh_tunnel_manager.BaiduDns.{
  ListError, page_error, empty_body, page, bad_json, list_error, Page, Listed, Api, DnsTarget,
  get_page, new_dns_target,
}
use ssh_tunnel_manager.Bcd.{base_url}
use ssh_tunnel_manager.Common.{◌≡◌, ℕ, List, Text}
use ssh_tunnel_manager.QueryTool.{Client, ToolPage, fails, result}

-- How the app and the tool read one answer.
data Reading : Page → ToolPage → Type 0 where
  both_fail : (e : ListError) → Reading (page_error e) (fails e)
  both_read : (records : List Text) → Reading (page records) (result records)
  only_app : Reading empty_body (fails bad_json)

-- The tool and the app end alike, or the tool has taken an empty body for a JSON error.
pub data Agrees (api : Api) (d : DnsTarget) (tool app : Listed) : Type 0 where
  alike : tool ≡ app → Agrees api d tool app
  empty_answer :
      (page_no : ℕ)
      → get_page api d page_no ≡ empty_body
      → tool ≡ list_error bad_json
      → Agrees api d tool app

module _ (api : Api) (client : Client) (ak sk zone : Text)
    (same_text : client.marshal zone ≡ api.quoted zone) where
  abbrev app_target : DnsTarget
  app_target = new_dns_target ak sk zone base_url
