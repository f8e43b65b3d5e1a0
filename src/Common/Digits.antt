-- ===== src/Common/Digits.antt =====
-- `strconv.Atoi` reads what `strconv.Itoa` writes.
use Prim.Native.Nat.{ℕ, zero, suc, ◌+◌, ◌-◌, ◌*◌, ◌^◌, ◌/◌, ◌%◌, ◌≤◌, ◌<◌}
use mathlib.Core.Bool.{true, false}
use mathlib.Core.List.{reverse, [], ◌∷◌, reverse-cons, reverse-reverse}
use mathlib.Core.Logic.{inl, inr}
use mathlib.Core.Path.{sym, ◌≡◌, refl, ap, ◌∙◌, subst}
use native.Mathlib.Omega.{arith}
use ssh_tunnel_manager.Common.Atoi.{atoi, scan_digits, without_sign}
use ssh_tunnel_manager.Common.Int.{pos}
use ssh_tunnel_manager.Common.Lists.{All, All-append}
use ssh_tunnel_manager.Common.Strings.{
  trim_left, trim_reversed, trim_space, Text, decimal, digits_onto,
}
use ssh_tunnel_manager.Common.Tests.{ltb, ◌==◌, Bool-cases}

record IsDigit (c : ℕ) : Type 0 where
  pub at_least : b'0' ≤ c
  pub at_most : c ≤ b'9'

-- A digit is read.
scan_digits-digit :
    (n d : ℕ) (s : Text)
    → d ≤ 9
    → n * 10 + d < 2 ^ 64
    → scan_digits n ((b'0' + d) ∷ s) ≡ scan_digits (n * 10 + d) s
unfolding scan_digits
scan_digits-digit n d s small fits =
    let same : 48 + d - 48 ≡ d = omega arith in rw same (ground (arith, small, fits))

scan_digits-digits_onto :
    (fuel n : ℕ) (out : Text)
    → n ≤ fuel
    → n < 2 ^ 64
    → scan_digits 0 (digits_onto (suc fuel) n out) ≡ scan_digits n out
unfolding digits_onto
scan_digits-digits_onto zero n out h fits =
    let small : ltb n 10 ≡ true = ground (arith, h) in
    let last : 0 * 10 + n ≡ n = omega arith in
    rw small
      (scan_digits-digit 0 n out (omega arith) (omega arith) ∙ ap (λ k. scan_digits k out) last)
scan_digits-digits_onto (suc fuel) n out h fits = elim (Bool-cases (ltb n 10)) [
  | inl small ↦
      let last : 0 * 10 + n ≡ n = omega arith in
      let bound : n ≤ 9 = ground (arith, small) in
      rw small (scan_digits-digit 0 n out bound (omega arith) ∙ ap (λ k. scan_digits k out) last)
  | inr large ↦
      let bound : 10 ≤ n = ground (arith, large) in
      let whole : n / 10 * 10 + n % 10 ≡ n = omega arith in
      rw large (
        scan_digits-digits_onto fuel (n / 10) ((48 + n % 10) ∷ out) (omega arith) (omega arith)
        ∙ (scan_digits-digit (n / 10) (n % 10) out (omega arith) (omega arith)
            ∙ ap (λ k. scan_digits k out) whole))
]

-- A number that has been written begins with a digit, which is no sign.
data Starts (t : Text) : Type 0 where
  starts : (c : ℕ) (rest : Text) → t ≡ c ∷ rest → IsDigit c → Starts t

digits_onto-Starts : (fuel n : ℕ) (out : Text) → n ≤ fuel → Starts (digits_onto (suc fuel) n out)
unfolding digits_onto
digits_onto-Starts zero n out h =
    let small : ltb n 10 ≡ true = ground (arith, h) in
    rw small (starts _ _ refl (record { at_least = omega arith; at_most = omega arith }))
digits_onto-Starts (suc fuel) n out h = elim (Bool-cases (ltb n 10)) [
  | inl small ↦
      let bound : n ≤ 9 = ground (arith, small) in
      rw small (starts _ _ refl (record { at_least = omega arith; at_most = omega arith }))
  | inr large ↦
      let bound : 10 ≤ n = ground (arith, large) in
      rw large (digits_onto-Starts fuel (n / 10) ((48 + n % 10) ∷ out) (omega arith))
]

atoi-Starts : (t : Text) → Starts t → atoi t ≡ without_sign (scan_digits 0 t)
unfolding atoi
atoi-Starts t (starts c rest e d) = rw e (atoi-digit c rest d)
  where
    atoi-digit :
        (c : ℕ) (rest : Text)
        → IsDigit c
        → atoi (c ∷ rest) ≡ without_sign (scan_digits 0 (c ∷ rest))
    atoi-digit c rest d =
        let minus : (c == b'-') ≡ false = ground (arith, d.at_least) in
        let plus : (c == b'+') ≡ false = ground (arith, d.at_least) in rw (minus, plus) refl

-- A number below 2^63 comes back.
pub atoi-decimal : (n : ℕ) → n < 2 ^ 63 → atoi (decimal n) ≡ (pos n, true)
unfolding decimal
atoi-decimal n fits =
    let within : ltb n (2 ^ 63) ≡ true = ground (arith, fits) in
    atoi-Starts (digits_onto (suc n) n []) (digits_onto-Starts n n [] (omega arith))
    ∙ (ap without_sign (scan_digits-digits_onto n n [] (omega arith) (omega arith))
        ∙ (unfold scan_digits in rw within refl))

All-digits_onto :
    (fuel n : ℕ) (out : Text)
    → n ≤ fuel
    → All IsDigit out
    → All IsDigit (digits_onto (suc fuel) n out)
unfolding digits_onto
All-digits_onto zero n out h d =
    let small : ltb n 10 ≡ true = ground (arith, h) in
    rw small (record { at_least = omega arith; at_most = omega arith }, d)
All-digits_onto (suc fuel) n out h d = elim (Bool-cases (ltb n 10)) [
  | inl small ↦
      let bound : n ≤ 9 = ground (arith, small) in
      rw small (record { at_least = omega arith; at_most = omega arith }, d)
  | inr large ↦
      let bound : 10 ≤ n = ground (arith, large) in
      rw large (
        All-digits_onto fuel (n / 10) ((48 + n % 10) ∷ out) (omega arith)
          (record { at_least = omega arith; at_most = omega arith }, d))
]

All-reverse : (t : Text) → All IsDigit t → All IsDigit (reverse t)
All-reverse [] h = tt
All-reverse (c ∷ t) (h, hs) =
    subst (All IsDigit) (sym (reverse-cons c t))
      (All-append IsDigit (reverse t) (c ∷ []) (All-reverse t hs) (h, tt))

trim_left-digits : (t : Text) → All IsDigit t → trim_left t ≡ t
unfolding trim_left
trim_left-digits [] h = refl
trim_left-digits (a ∷ []) (h, _) = ground (arith, h.at_least)
trim_left-digits (a ∷ b ∷ []) (h, _) = ground (arith, h.at_least, h.at_most)
trim_left-digits (a ∷ b ∷ c ∷ t) (h, _) = ground (arith, h.at_least, h.at_most)

trim_reversed-digits : (t : Text) → All IsDigit t → trim_reversed t ≡ t
unfolding trim_reversed
trim_reversed-digits [] h = refl
trim_reversed-digits (a ∷ []) (h, _) = ground (arith, h.at_least)
trim_reversed-digits (a ∷ b ∷ []) (h, (k, _)) = ground (arith, h.at_least, h.at_most, k.at_most)
trim_reversed-digits (a ∷ b ∷ c ∷ t) (h, (k, _)) = ground (arith, h.at_least, h.at_most, k.at_most)

pub trim_space-decimal : (n : ℕ) → trim_space (decimal n) ≡ decimal n
unfolding trim_space decimal
trim_space-decimal n =
    let d = All-digits_onto n n [] (omega arith) tt in
    ap (λ t. reverse (trim_reversed (reverse t))) (trim_left-digits _ d)
    ∙ (ap reverse (trim_reversed-digits _ (All-reverse _ d)) ∙ reverse-reverse _)
