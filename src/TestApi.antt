-- ===== src/TestApi.antt =====
-- ui.go: the request that `testAPI` sends through the tunnel, and what it says of the response.
use ssh_tunnel_manager.Common.{
  ℕ, Bool, true, false, ◌&&◌, List, [], ◌∷◌, ◌++◌, Text, text, ltb, leb, if◌then◌else◌, length,
  take,
}
use ssh_tunnel_manager.Common.Int.{int_text}
use ssh_tunnel_manager.Common.Strings.{trim_space, decimal, contains}
use ssh_tunnel_manager.Config.{ForwardConfig}
use ssh_tunnel_manager.SshCommand.{is_empty}

-- A POST request; `headers` are the calls of `Header.Set` in their order.
pub record TestRequest : Type 0 where
  pub url : Text
  pub body : Text
  pub headers : List (Text × Text)

-- `net.JoinHostPort`: a host with a colon gets brackets.
unfoldable pub join_host_port : Text → Text → Text
join_host_port host port =
    if contains host (text ":")
    then text "[" ++ (host ++ (text "]:" ++ port))
    else host ++ (text ":" ++ port)

abbrev test_body : Text
test_body =
    text
      "{\"model\":\"claude-sonnet-4-20250514\",\"max_tokens\":10,\"messages\":[{\"role\":\"user\",\"content\":\"hi\"}]}"

abbrev api_key_header : Text → List (Text × Text)
api_key_header key = if is_empty key then [] else (text "x-api-key", key) ∷ []

unfoldable pub test_request : ForwardConfig → Text → TestRequest
test_request fwd key = record {
  url =
      text "http://"
      ++ (join_host_port fwd.local_host (int_text fwd.local_port) ++ text "/v1/messages");
  body = test_body;
  headers =
      (text "Content-Type", text "application/json")
      ∷ (api_key_header key ++ ((text "anthropic-version", text "2023-06-01") ∷ []));
}

abbrev short_body : Text → Text
short_body body = if ltb 200 (length body) then take 200 body ++ text "..." else body

-- The message for a response: of the body, at most 512 bytes are read.
unfoldable pub response_message : ℕ → Text → Text × Bool
response_message code body =
    let read = trim_space (take 512 body) in
    if leb 200 code && ltb code 400
    then (text "✓ 接口可用 (HTTP " ++ (decimal code ++ text ")"), true)
    else if is_empty (short_body read)
    then (text "✗ 请求失败 (HTTP " ++ (decimal code ++ text ")"), false)
    else (text "✗ HTTP " ++ (decimal code ++ (text ": " ++ short_body read)), false)
