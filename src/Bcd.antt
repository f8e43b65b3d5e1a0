-- ===== src/Bcd.antt =====
-- internal/bcd/bcd.go: the BCE Auth V1 signature of a request, and the credentials file.
pub mod Uri
pub mod KeyFile
use ssh_tunnel_manager.Common.{
  ℕ, ◌+◌, ◌-◌, ◌/◌, ◌%◌, Bool, ◌||◌, ◌&&◌, List, [], ◌∷◌, ◌++◌, Option, none, some, Text, text, leb,
  ltb, ◌==◌, if◌then◌else◌, equal,
}
use ssh_tunnel_manager.Common.Strings.{split, join, trim_space, to_lower, replace_all, cut}

abbrev pub host : Text
host = text "bcd.baidubce.com"

abbrev pub base_url : Text
base_url = text "https://" ++ host

abbrev pub sign_expiration : Text
sign_expiration = text "1800"

-- The test in the loop of `CanonicalURI`.
unfoldable pub is_unreserved : ℕ → Bool
is_unreserved b =
    (leb b'a' b && leb b b'z')
    || ((leb b'A' b && leb b b'Z')
        || ((leb b'0' b && leb b b'9') || (b == b'-' || (b == b'_' || (b == b'.' || b == b'~')))))

-- A digit of `%02X`.
unfoldable pub hex_digit : ℕ → ℕ
hex_digit n = if ltb n 10 then b'0' + n else b'A' + (n - 10)

unfoldable pub encode_byte : ℕ → Text
unfolding is_unreserved hex_digit
encode_byte b =
    if is_unreserved b then b ∷ [] else b'%' ∷ hex_digit (b / 16) ∷ hex_digit (b % 16) ∷ []

unfoldable pub encode_segment : Text → Text
unfolding encode_byte
encode_segment [] = []
encode_segment (b ∷ seg) = encode_byte b ++ encode_segment seg

-- The loop over the segments: empty ones are skipped.
unfoldable pub encode_segments : List Text → List Text
unfolding encode_segment
encode_segments [] = []
encode_segments ([] ∷ segs) = encode_segments segs
encode_segments ((b ∷ seg) ∷ segs) = encode_segment (b ∷ seg) ∷ encode_segments segs

unfoldable pub canonical_uri : Text → Text
unfolding encode_segments split join
canonical_uri path = b'/' ∷ join (encode_segments (split path b'/')) (b'/' ∷ [])

-- A digit of `hex.EncodeToString`.
lower_hex_digit : ℕ → ℕ
lower_hex_digit n = if ltb n 10 then b'0' + n else b'a' + (n - 10)

unfoldable hex_encode : Text → Text
unfolding lower_hex_digit
hex_encode [] = []
hex_encode (b ∷ bs) = lower_hex_digit (b / 16) ∷ lower_hex_digit (b % 16) ∷ hex_encode bs

-- HMAC-SHA256 of the Go library, from a key and a message to the bytes of the code.
module _ (hmac_sha256 : Text → Text → Text) where
  -- The time comes in as the text of `now.Format("2006-01-02T15:04:05Z")`.
  unfoldable pub sign_request : Text → Text → Text → Text → Text → Text
  unfolding canonical_uri hex_encode
  sign_request access_key secret_key method path timestamp =
      let prefix =
        text "bce-auth-v1/" ++ (access_key ++ (b'/' ∷ (timestamp ++ (b'/' ∷ sign_expiration)))) in
      let canonical =
        method ++ (b'\n' ∷ (canonical_uri path ++ (b'\n' ∷ b'\n' ∷ (text "host:" ++ host)))) in
      let signing_key = hex_encode (hmac_sha256 secret_key prefix) in
      let signature = hex_encode (hmac_sha256 signing_key canonical) in
      prefix ++ (text "/host/" ++ signature)

-- What a line of the file assigns.
pub data Assignment : Type 0 where
  sets_ak sets_sk : Text → Assignment
  sets_nothing : Assignment

abbrev colon : Text
colon = b':' ∷ []

-- The `switch` on the trimmed, lower-case key.
unfoldable assignment : Text → Text → Assignment
assignment key value =
    let k = to_lower (trim_space key) in
    if equal k (text "key") || equal k (text "ak")
    then sets_ak (trim_space value)
    else if equal k (text "secret") || equal k (text "sk")
    then sets_sk (trim_space value)
    else sets_nothing

-- The body of the loop over the lines.
unfoldable pub read_line : Text → Assignment
unfolding assignment
read_line raw =
    let line = replace_all (text "：") colon (trim_space raw) in
    elim (cut colon line) [ none ↦ sets_nothing | some (key, value) ↦ assignment key value ]

abbrev pub assign : Assignment → Text × Text → Text × Text
assign (sets_ak value) (ak, sk) = (value, sk)
assign (sets_sk value) (ak, sk) = (ak, value)
assign sets_nothing (ak, sk) = (ak, sk)

unfoldable pub read_lines : List Text → Text × Text → Text × Text
read_lines [] (ak, sk) = (ak, sk)
read_lines (line ∷ lines) (ak, sk) = read_lines lines (assign (read_line line) (ak, sk))

pub data CredentialsError : Type 0 where
  unreadable missing_keys : CredentialsError

pub data Credentials : Type 0 where
  credentials : Text → Text → Credentials
  credentials_error : CredentialsError → Credentials

-- The last test of `LoadCredentials`.
abbrev pub checked : Text × Text → Credentials
checked ([], sk) = credentials_error missing_keys
checked (a ∷ ak, []) = credentials_error missing_keys
checked (a ∷ ak, s ∷ sk) = credentials (a ∷ ak) (s ∷ sk)

-- `none` is a file that cannot be read. Empty lines assign nothing, as in the source's `continue`.
unfoldable pub load_credentials : Option Text → Credentials
unfolding read_lines
load_credentials none = credentials_error unreadable
load_credentials (some content) = checked (read_lines (split content b'\n') ([], []))
