-- ===== src/Common/Strings.antt =====
-- Go strings: the list of their bytes, and the functions of the package `strings` that the program
-- calls on them. Text outside ASCII is UTF-8.
use Prim.Native.Char.{code}
use Prim.Native.Nat.{ℕ, zero, suc, ◌+◌, ◌/◌, ◌%◌, pred}
use Prim.Native.String.{String}
use mathlib.Core.Bool.{Bool, true, false, ◌&&◌, ◌||◌}
use mathlib.Core.List.{List, [], ◌∷◌, ◌++◌, reverse, append-nil, append_assoc}
use mathlib.Core.Logic.{◌↔◌, inl, inr}
use mathlib.Core.Option.{Option, none, some}
use mathlib.Core.Path.{◌≡◌, refl, ap, ◌∙◌}
use native.Mathlib.Omega.{arith}
use ssh_tunnel_manager.Common.Lists.{All, All-append, Lacks}
use ssh_tunnel_manager.Common.Tests.{ltb, leb, ◌==◌, if◌then◌else◌, Bool-cases}

abbrev pub Text : Type 0
Text = List ℕ

-- The UTF-8 encoding of a code point.
abbrev encode : ℕ → Text → Text
encode c rest =
    if ltb c 0x80
    then c ∷ rest
    else if ltb c 0x800
    then (0xc0 + c / 64) ∷ (0x80 + c % 64) ∷ rest
    else if ltb c 0x10000
    then (0xe0 + c / 4096) ∷ (0x80 + c / 64 % 64) ∷ (0x80 + c % 64) ∷ rest
    else (0xf0 + c / 262144)
      ∷ (0x80 + c / 4096 % 64)
      ∷ (0x80 + c / 64 % 64)
      ∷ (0x80 + c % 64)
      ∷ rest

-- The bytes of a literal.
abbrev pub text : String → Text
text String.[] = []
text (String.◌∷◌ c s) = encode (code c) (text s)

-- `len(s)`
abbrev size : Text → ℕ
size [] = 0
size (c ∷ s) = suc (size s)

-- `a == b`
unfoldable pub equal : Text → Text → Bool
equal [] [] = true
equal (x ∷ a) (y ∷ b) = x == y && equal a b
equal _ _ = false

pub equal_iff : (a b : Text) → (equal a b ≡ true) ↔ (a ≡ b)
unfolding equal
equal_iff (x ∷ a) (y ∷ b) = ground (arith, equal_iff a b)
equal_iff _ _ = ground arith

pub equal_refl : (a : Text) → equal a a ≡ true
equal_refl a = (equal_iff a a).1 refl

-- `strings.HasPrefix(s, p)`, with what follows the prefix.
unfoldable pub strip_prefix : Text → Text → Option Text
strip_prefix [] s = some s
strip_prefix (x ∷ p) [] = none
strip_prefix (x ∷ p) (y ∷ s) = if x == y then strip_prefix p s else none

-- `strings.Cut(s, sep)`: what stands before and after the first `sep`.
unfoldable pub cut : Text → Text → Option (Text × Text)
unfolding strip_prefix
cut sep [] = elim (strip_prefix sep []) [ none ↦ none | some rest ↦ some ([], rest) ]
cut sep (c ∷ s) =
    let later : Option (Text × Text) = elim (cut sep s) [
      | none ↦ none
      | some (before, after) ↦ some (c ∷ before, after)
    ] in
    elim (strip_prefix sep (c ∷ s)) [ none ↦ later | some rest ↦ some ([], rest) ]

-- `strings.ReplaceAll(s, old, new)` for an `old` that is not empty. The number counts the bytes of a
-- match that are still to be passed over.
unfoldable replace_from : Text → Text → ℕ → Text → Text
unfolding strip_prefix
replace_from old new skip [] = []
replace_from old new (suc n) (c ∷ s) = replace_from old new n s
replace_from old new zero (c ∷ s) =
    let kept = c ∷ replace_from old new zero s in
    let replaced = new ++ replace_from old new (pred (size old)) s in
    elim (strip_prefix old (c ∷ s)) [ none ↦ kept | some _ ↦ replaced ]

unfoldable pub replace_all : Text → Text → Text → Text
unfolding replace_from
replace_all old new s = replace_from old new zero s

-- `strings.Contains(s, sep)`
unfoldable pub contains : Text → Text → Bool
unfolding cut
contains s sep = elim (cut sep s) [ none ↦ false | some _ ↦ true ]

-- `strings.Split(s, sep)` at a separator of one byte.
unfoldable split_onto : ℕ → Text → Text → List Text
split_onto sep cur [] = cur ∷ []
split_onto sep cur (c ∷ s) = elim (c == sep) [
  | true ↦ cur ∷ split_onto sep [] s
  | false ↦ split_onto sep (cur ++ (c ∷ [])) s
]

unfoldable pub split : Text → ℕ → List Text
unfolding split_onto
split s sep = split_onto sep [] s

split_onto-sep :
    (sep : ℕ) (cur p rest : Text)
    → Lacks sep p
    → split_onto sep cur (p ++ (sep ∷ rest)) ≡ (cur ++ p) ∷ split_onto sep [] rest
unfolding split_onto
split_onto-sep sep cur [] rest h = ground (arith, append-nil cur)
split_onto-sep sep cur (c ∷ p) rest (h, hs) =
    ground (arith, split_onto-sep sep (cur ++ (c ∷ [])) p rest hs, append_assoc cur (c ∷ []) p)

split_onto_last : (sep : ℕ) (cur p : Text) → Lacks sep p → split_onto sep cur p ≡ (cur ++ p) ∷ []
unfolding split_onto
split_onto_last sep cur [] h = ground (arith, append-nil cur)
split_onto_last sep cur (c ∷ p) (h, hs) =
    ground (arith, split_onto_last sep (cur ++ (c ∷ [])) p hs, append_assoc cur (c ∷ []) p)

-- The text before the first separator is the first part.
pub split-sep :
    (sep : ℕ) (p rest : Text) → Lacks sep p → split (p ++ (sep ∷ rest)) sep ≡ p ∷ split rest sep
unfolding split
split-sep sep p rest h = split_onto-sep sep [] p rest h

split_of_Lacks : (sep : ℕ) (p : Text) → Lacks sep p → split p sep ≡ p ∷ []
unfolding split
split_of_Lacks sep p h = split_onto_last sep [] p h

All-split_onto :
    (P : ℕ → Type 0) (sep : ℕ) (cur s : Text)
    → All P cur
    → All P s
    → All (All P) (split_onto sep cur s)
unfolding split_onto
All-split_onto P sep cur [] hc hs = (hc, tt)
All-split_onto P sep cur (c ∷ s) hc (h, hs) = elim (Bool-cases (c == sep)) [
  | inl e ↦ rw (e, split_onto, All) (hc, All-split_onto P sep [] s tt hs)
  | inr e ↦
      rw (e, split_onto, All)
        (All-split_onto P sep (cur ++ (c ∷ [])) s (All-append P cur (c ∷ []) hc (h, tt)) hs)
]

pub All-split : (P : ℕ → Type 0) (sep : ℕ) (s : Text) → All P s → All (All P) (split s sep)
unfolding split
All-split P sep s h = All-split_onto P sep [] s tt h

-- `strings.Join(parts, sep)`
unfoldable pub join : List Text → Text → Text
join [] sep = []
join (p ∷ []) sep = p
join (p ∷ q ∷ ps) sep = p ++ (sep ++ join (q ∷ ps) sep)

-- Splitting gives joined parts back, when there is one and no part holds the separator.
pub split-join :
    (sep : ℕ) (p : Text) (ps : List Text)
    → All (Lacks sep) (p ∷ ps)
    → split (join (p ∷ ps) (sep ∷ [])) sep ≡ p ∷ ps
unfolding join
split-join sep p [] (h, hs) = split_of_Lacks sep p h
split-join sep p (q ∷ ps) (h, hs) = split-sep sep p _ h ∙ ap (λ r. p ∷ r) (split-join sep q ps hs)

abbrev is_ascii_space : ℕ → Bool
is_ascii_space c = (leb 9 c && leb c 13) || c == 32

-- The white space of `unicode.IsSpace` that takes two bytes, U+0085 and U+00A0.
abbrev is_space_2 : ℕ → ℕ → Bool
is_space_2 a b = a == 0xc2 && (b == 0x85 || b == 0xa0)

-- The white space that takes three bytes: U+1680, U+2000 to U+200A, U+2028, U+2029, U+202F, U+205F
-- and U+3000.
abbrev is_space_3 : ℕ → ℕ → ℕ → Bool
is_space_3 a b c =
    (a == 0xe1 && (b == 0x9a && c == 0x80))
    || ((a == 0xe2
          && ((b == 0x80 && ((leb 0x80 c && leb c 0x8a) || (c == 0xa8 || (c == 0xa9 || c == 0xaf))))
              || (b == 0x81 && c == 0x9f)))
        || (a == 0xe3 && (b == 0x80 && c == 0x80)))

-- `strings.TrimLeftFunc(s, unicode.IsSpace)`
unfoldable pub trim_left : Text → Text
trim_left [] = []
trim_left (a ∷ []) = if is_ascii_space a then [] else a ∷ []
trim_left (a ∷ b ∷ []) =
    let rest = trim_left (b ∷ []) in
    if is_ascii_space a then rest else if is_space_2 a b then [] else a ∷ b ∷ []
trim_left (a ∷ b ∷ c ∷ s) =
    let one = trim_left (b ∷ c ∷ s) in
    let two = trim_left (c ∷ s) in
    let three = trim_left s in
    if is_ascii_space a
    then one
    else if is_space_2 a b
    then two
    else if is_space_3 a b c
    then three
    else a ∷ b ∷ c ∷ s

-- The same from the end, on the bytes in reverse.
unfoldable pub trim_reversed : Text → Text
trim_reversed [] = []
trim_reversed (a ∷ []) = if is_ascii_space a then [] else a ∷ []
trim_reversed (a ∷ b ∷ []) =
    let rest = trim_reversed (b ∷ []) in
    if is_ascii_space a then rest else if is_space_2 b a then [] else a ∷ b ∷ []
trim_reversed (a ∷ b ∷ c ∷ s) =
    let one = trim_reversed (b ∷ c ∷ s) in
    let two = trim_reversed (c ∷ s) in
    let three = trim_reversed s in
    if is_ascii_space a
    then one
    else if is_space_2 b a
    then two
    else if is_space_3 c b a
    then three
    else a ∷ b ∷ c ∷ s

-- `strings.TrimSpace(s)`
unfoldable pub trim_space : Text → Text
unfolding trim_left trim_reversed
trim_space s = reverse (trim_reversed (reverse (trim_left s)))

-- `strings.ToLower(s)` on ASCII letters; other bytes are kept.
unfoldable pub to_lower : Text → Text
to_lower [] = []
to_lower (c ∷ s) = (if leb b'A' c && leb c b'Z' then c + 32 else c) ∷ to_lower s

-- `strings.TrimSuffix(s, suffix)`
unfoldable pub trim_suffix : Text → Text → Text
unfolding strip_prefix
trim_suffix s suffix = elim (strip_prefix (reverse suffix) (reverse s)) [
  | none ↦ s
  | some rest ↦ reverse rest
]

-- `%d` and `strconv.Itoa` on a number that is not negative.
unfoldable pub digits_onto : ℕ → ℕ → Text → Text
digits_onto zero n out = out
digits_onto (suc fuel) n out =
    let more = digits_onto fuel (n / 10) ((b'0' + n % 10) ∷ out) in
    if ltb n 10 then (b'0' + n) ∷ out else more

unfoldable pub decimal : ℕ → Text
unfolding digits_onto
decimal n = digits_onto (suc n) n []
