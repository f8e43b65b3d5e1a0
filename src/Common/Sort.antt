-- ===== src/Common/Sort.antt =====
-- `sort.Strings`: the order of Go's strings, by their bytes, and a sort by insertion.
use mathlib.Core.Bool.{Bool, true, false}
use mathlib.Core.List.{Permᴰ, List, [], ◌∷◌}
use mathlib.Core.Logic.{◌≢◌}
use mathlib.Core.Path.{◌≡◌, refl, ◌∙◌}
use native.Mathlib.Omega.{arith}
use ssh_tunnel_manager.Common.Strings.{Text}
use ssh_tunnel_manager.Common.Tests.{ltb, ◌==◌, if◌then◌else◌}

unfoldable pub le_text : Text → Text → Bool
le_text [] ys = true
le_text (x ∷ xs) [] = false
le_text (x ∷ xs) (y ∷ ys) =
    let rest = le_text xs ys in if ltb x y then true else if x == y then rest else false

unfoldable insert_text : Text → List Text → List Text
insert_text x [] = x ∷ []
insert_text x (y ∷ ys) = let rest = insert_text x ys in if le_text x y then x ∷ y ∷ ys else y ∷ rest

unfoldable pub sort_strings : List Text → List Text
unfolding insert_text
sort_strings [] = []
sort_strings (x ∷ xs) = insert_text x (sort_strings xs)

le_text_total : (x y : Text) → le_text x y ≡ false → le_text y x ≡ true
unfolding le_text
le_text_total [] y h = ground arith
le_text_total (a ∷ x) [] h = refl
le_text_total (a ∷ x) (b ∷ y) h = ground (arith, le_text_total x y)

le_text_antisym : (x y : Text) → le_text x y ≡ true → le_text y x ≡ true → x ≡ y
unfolding le_text
le_text_antisym [] [] h k = refl
le_text_antisym [] (b ∷ y) h k = ground arith
le_text_antisym (a ∷ x) [] h k = ground arith
le_text_antisym (a ∷ x) (b ∷ y) h k = ground (arith, le_text_antisym x y)

le_text_trans : (x y z : Text) → le_text x y ≡ true → le_text y z ≡ true → le_text x z ≡ true
unfolding le_text
le_text_trans [] y z h k = refl
le_text_trans (a ∷ x) [] z h k = ground arith
le_text_trans (a ∷ x) (b ∷ y) [] h k = ground arith
le_text_trans (a ∷ x) (b ∷ y) (c ∷ z) h k = ground (arith, le_text_trans x y z)

insert_text_comm :
    (x y : Text) (zs : List Text)
    → insert_text x (insert_text y zs) ≡ insert_text y (insert_text x zs)
unfolding insert_text
insert_text_comm x y [] = ground (arith, le_text_total x y, le_text_total y x, le_text_antisym x y)
insert_text_comm x y (z ∷ zs) = ground (
  arith,
  le_text_total x y,
  le_text_total y x,
  le_text_antisym x y,
  le_text_trans y x z,
  le_text_trans x y z,
  insert_text_comm x y zs,
)

-- No element of the list is `a`.
abbrev pub LacksText : Text → List Text → Type 0
LacksText a [] = Unit
LacksText a (x ∷ xs) = (x ≢ a) × LacksText a xs

-- Two orders of the same texts are sorted to one.
pub sort_strings_perm : {xs ys : List Text} → Permᴰ xs ys → sort_strings xs ≡ sort_strings ys
unfolding sort_strings
sort_strings_perm Permᴰ.nil = refl
sort_strings_perm (Permᴰ.cons e p) = cong₂_insert e (sort_strings_perm p)
  where
    cong₂_insert :
        {a b : Text} {us vs : List Text} → a ≡ b → us ≡ vs → insert_text a us ≡ insert_text b vs
    cong₂_insert e f = rw (e, f) refl
sort_strings_perm (Permᴰ.swap {a} {b} {l = l} e f) =
    rw (← e, ← f) (insert_text_comm a b (sort_strings l))
sort_strings_perm (Permᴰ.trans p q) = sort_strings_perm p ∙ sort_strings_perm q
