-- ===== src/Bcd/Uri.antt =====
-- What `CanonicalURI` of internal/bcd/bcd.go keeps of a path.
use ssh_tunnel_manager.Bcd.{
  canonical_uri, encode_segments, is_unreserved, hex_digit, encode_byte, encode_segment,
}
use ssh_tunnel_manager.Common.{
  ap₂, Lacks, List, map, ℕ, ◌+◌, ◌-◌, ◌*◌, ◌/◌, ◌%◌, ◌<◌, ◌≡◌, ◌∙◌, refl, ap, ◌||◌, true, false, [],
  ◌∷◌, ◌++◌, Text, All, All-append, arith, ltb, ◌==◌, if◌then◌else◌, Bool-cases, inl, inr,
}
use ssh_tunnel_manager.Common.Strings.{split, split-sep, split-join, All-split, join}

-- The value of a hexadecimal digit in upper case.
hex_value : ℕ → ℕ
hex_value c = if ltb c b'A' then c - b'0' else c - b'A' + 10

-- Percent-decoding, which a server applies to a segment.
unfoldable pub decode : Text → Text
unfolding hex_value
decode [] = []
decode (a ∷ []) = a ∷ []
decode (a ∷ b ∷ []) = a ∷ b ∷ []
decode (a ∷ b ∷ c ∷ s) =
    let plain = a ∷ decode (b ∷ c ∷ s) in
    let escaped = (hex_value b * 16 + hex_value c) ∷ decode s in
    if a == b'%' then escaped else plain

decode-plain : (b : ℕ) (s : Text) → (b == b'%') ≡ false → decode (b ∷ s) ≡ b ∷ decode s
unfolding decode
decode-plain b [] h = refl
decode-plain b (c ∷ []) h = refl
decode-plain b (c ∷ d ∷ s) h = rw h

is_unreserved-ne-percent : (b : ℕ) → is_unreserved b ≡ true → (b == b'%') ≡ false
unfolding is_unreserved
is_unreserved-ne-percent b h = ground arith

hex_value-hex_digit : (n : ℕ) → n < 16 → hex_value (hex_digit n) ≡ n
unfolding hex_value hex_digit
hex_value-hex_digit n h = ground arith

decode-escaped :
    (b : ℕ) (s : Text)
    → b < 256
    → decode (b'%' ∷ hex_digit (b / 16) ∷ hex_digit (b % 16) ∷ s) ≡ b ∷ decode s
unfolding decode
decode-escaped b s h =
    ap (λ x. x ∷ decode s)
      (omega (arith, hex_value-hex_digit (b / 16), hex_value-hex_digit (b % 16)))

decode-encode_byte : (b : ℕ) (s : Text) → b < 256 → decode (encode_byte b ++ s) ≡ b ∷ decode s
unfolding encode_byte
decode-encode_byte b s h = elim (Bool-cases (is_unreserved b)) [
  | inl kept ↦ rw kept (decode-plain b s (is_unreserved-ne-percent b kept))
  | inr coded ↦ rw coded (decode-escaped b s h)
]

-- Percent-decoding gives a segment back, whatever bytes it holds.
decode-encode_segment : (seg : Text) → All (λ b. b < 256) seg → decode (encode_segment seg) ≡ seg
unfolding encode_segment decode
decode-encode_segment [] h = refl
decode-encode_segment (b ∷ seg) (h, hs) =
    decode-encode_byte b (encode_segment seg) h ∙ ap (λ t. b ∷ t) (decode-encode_segment seg hs)

-- The bytes that need no further escaping in a signed path: unreserved ones and `%`.
abbrev pub IsCanonical : ℕ → Type 0
IsCanonical b = (is_unreserved b || b == b'%') ≡ true

hex_digit-IsCanonical : (n : ℕ) → n < 16 → IsCanonical (hex_digit n)
unfolding hex_digit is_unreserved
hex_digit-IsCanonical n h = ground arith

encode_byte-IsCanonical : (b : ℕ) → b < 256 → All IsCanonical (encode_byte b)
unfolding encode_byte
encode_byte-IsCanonical b h = elim (Bool-cases (is_unreserved b)) [
  | inl kept ↦ rw kept (rw kept refl, tt)
  | inr coded ↦
      let low : All IsCanonical (hex_digit (b % 16) ∷ []) =
        (hex_digit-IsCanonical (b % 16) (omega arith), tt) in
      rw coded (unfold is_unreserved in refl, (hex_digit-IsCanonical (b / 16) (omega arith), low))
]

-- An encoded segment holds unreserved bytes and `%` only; in particular no `/`.
encode_segment-IsCanonical :
    (seg : Text) → All (λ b. b < 256) seg → All IsCanonical (encode_segment seg)
unfolding encode_segment
encode_segment-IsCanonical [] h = tt
encode_segment-IsCanonical (b ∷ seg) (h, hs) =
    All-append IsCanonical (encode_byte b) (encode_segment seg) (encode_byte-IsCanonical b h)
      (encode_segment-IsCanonical seg hs)

IsCanonical-Lacks : (s : Text) → All IsCanonical s → Lacks b'/' s
unfolding is_unreserved
IsCanonical-Lacks [] h = tt
IsCanonical-Lacks (b ∷ s) (h, hs) = (ground arith, IsCanonical-Lacks s hs)

-- The segments of a path that are not empty.
unfoldable pub drop_empty : List Text → List Text
drop_empty [] = []
drop_empty ([] ∷ segs) = drop_empty segs
drop_empty ((b ∷ seg) ∷ segs) = (b ∷ seg) ∷ drop_empty segs

abbrev pub segments : Text → List Text
segments path = drop_empty (split path b'/')

abbrev AreBytes : Text → Type 0
AreBytes = All (λ b. b < 256)

encode_segments-Lacks :
    (segs : List Text) → All AreBytes segs → All (Lacks b'/') (encode_segments segs)
unfolding encode_segments
encode_segments-Lacks [] h = tt
encode_segments-Lacks ([] ∷ segs) (h, hs) = encode_segments-Lacks segs hs
encode_segments-Lacks ((b ∷ seg) ∷ segs) (h, hs) =
    (IsCanonical-Lacks _ (encode_segment-IsCanonical (b ∷ seg) h), encode_segments-Lacks segs hs)

drop_empty-cons :
    (b : ℕ) (seg : Text) (segs : List Text)
    → drop_empty ((encode_byte b ++ seg) ∷ segs) ≡ (encode_byte b ++ seg) ∷ drop_empty segs
unfolding encode_byte drop_empty
drop_empty-cons b seg segs = ground arith

map-decode-encode_segments :
    (segs : List Text)
    → All AreBytes segs
    → map decode (drop_empty (encode_segments segs)) ≡ drop_empty segs
unfolding encode_segments drop_empty
map-decode-encode_segments [] h = refl
map-decode-encode_segments ([] ∷ segs) (h, hs) = map-decode-encode_segments segs hs
map-decode-encode_segments ((b ∷ seg) ∷ segs) (h, hs) =
    ap (map decode)
      (unfold encode_segment in drop_empty-cons b (encode_segment seg) (encode_segments segs))
    ∙ ap₂ ◌∷◌ (decode-encode_segment (b ∷ seg) h) (map-decode-encode_segments segs hs)

segments-join :
    (segs : List Text)
    → All (Lacks b'/') segs
    → segments (b'/' ∷ join segs (b'/' ∷ [])) ≡ drop_empty segs
unfolding drop_empty split join
segments-join [] h = refl
segments-join (seg ∷ segs) h =
    ap drop_empty (split-sep b'/' [] (join (seg ∷ segs) (b'/' ∷ [])) tt)
    ∙ ap drop_empty (split-join b'/' seg segs h)

segments-canonical_uri :
    (path : Text)
    → AreBytes path
    → segments (canonical_uri path) ≡ drop_empty (encode_segments (split path b'/'))
unfolding canonical_uri
segments-canonical_uri path h =
    segments-join _ (encode_segments-Lacks _ (All-split (λ b. b < 256) b'/' path h))

-- A server that splits a signed path at `/` and percent-decodes the segments gets the segments of
-- the path that was asked for, when all of its elements are bytes. Empty segments are left out on
-- both sides.
pub map-decode-canonical_uri :
    (path : Text)
    → All (λ b. b < 256) path
    → map decode (segments (canonical_uri path)) ≡ segments path
map-decode-canonical_uri path h =
    ap (map decode) (segments-canonical_uri path h)
    ∙ map-decode-encode_segments (split path b'/') (All-split (λ b. b < 256) b'/' path h)
