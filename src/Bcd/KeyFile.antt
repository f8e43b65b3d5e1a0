-- ===== src/Bcd/KeyFile.antt =====
-- What `LoadCredentials` of internal/bcd/bcd.go takes from a file.
use ssh_tunnel_manager.Bcd.{
  Assignment, sets_ak, sets_sk, sets_nothing, read_line, read_lines, checked, credentials,
  credentials_error, missing_keys, load_credentials,
}
use ssh_tunnel_manager.Common.{
  ◌∙◌, ◌||◌, false, true, Bool, ap, ◌≡◌, refl, List, [], ◌∷◌, Option, none, some, Text,
  if◌then◌else◌,
}
use ssh_tunnel_manager.Common.Strings.{split}

abbrev ak_of : Assignment → Option Text
ak_of (sets_ak value) = some value
ak_of _ = none

abbrev sk_of : Assignment → Option Text
sk_of (sets_sk value) = some value
sk_of _ = none

-- The values that the lines give by `pick`, in order.
unfoldable pub values : (Assignment → Option Text) → List Text → List Text
values pick [] = []
values pick (line ∷ lines) = elim (pick (read_line line)) [
  | none ↦ values pick lines
  | some value ↦ value ∷ values pick lines
]

abbrev last_or : Text → List Text → Text
last_or default [] = default
last_or default (v ∷ vs) = last_or v vs

-- The last value that a line gives for the access key, and for the secret key, or the empty text.
abbrev pub last_ak : List Text → Text
last_ak lines = last_or [] (values ak_of lines)

abbrev pub last_sk : List Text → Text
last_sk lines = last_or [] (values sk_of lines)

abbrev Reads : List Text → Text → Text → Type 0
Reads lines ak sk =
    read_lines lines (ak, sk) ≡ (last_or ak (values ak_of lines), last_or sk (values sk_of lines))

Reads-cons :
    (a : Assignment) (line : Text) (lines : List Text) (ak sk : Text)
    → read_line line ≡ a
    → ((ak sk : Text) → Reads lines ak sk)
    → Reads (line ∷ lines) ak sk
unfolding read_lines values
Reads-cons (sets_ak v) line lines ak sk e ih = rw (e, values) (ih v sk)
Reads-cons (sets_sk v) line lines ak sk e ih = rw (e, values) (ih ak v)
Reads-cons sets_nothing line lines ak sk e ih = rw (e, values) (ih ak sk)

read_lines-last_or : (lines : List Text) (ak sk : Text) → Reads lines ak sk
unfolding read_lines values
read_lines-last_or [] ak sk = refl
read_lines-last_or (line ∷ lines) ak sk =
    Reads-cons (read_line line) line lines ak sk refl (read_lines-last_or lines)

abbrev pub is_empty : Text → Bool
is_empty [] = true
is_empty (c ∷ s) = false

checked-is_empty :
    (ak sk : Text)
    → checked (ak, sk)
      ≡ (if is_empty ak || is_empty sk then credentials_error missing_keys else credentials ak sk)
checked-is_empty [] sk = refl
checked-is_empty (a ∷ ak) [] = refl
checked-is_empty (a ∷ ak) (s ∷ sk) = refl

-- A file that can be read gives the last access key and the last secret key that its lines assign,
-- and is refused when one of the two is empty or absent.
pub load_credentials-last :
    (content : Text)
    → let lines = split content b'\n' in
      load_credentials (some content) ≡ (
        if is_empty (last_ak lines) || is_empty (last_sk lines)
        then credentials_error missing_keys
        else credentials (last_ak lines) (last_sk lines))
unfolding load_credentials
load_credentials-last content =
    ap checked (read_lines-last_or (split content b'\n') [] []) ∙ checked-is_empty _ _
