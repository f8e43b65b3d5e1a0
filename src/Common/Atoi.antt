-- ===== src/Common/Atoi.antt =====
-- `strconv.Atoi` for a 64-bit `int`, which the code also calls without a look at its error.
use Prim.Native.Nat.{ℕ, zero, suc, ◌+◌, ◌-◌, ◌*◌, ◌^◌}
use mathlib.Core.Bool.{Bool, true, false, ◌&&◌}
use mathlib.Core.List.{[], ◌∷◌}
use ssh_tunnel_manager.Common.Int.{ℤ, pos, negsuc}
use ssh_tunnel_manager.Common.Strings.{Text}
use ssh_tunnel_manager.Common.Tests.{ltb, leb, ◌==◌, if◌then◌else◌}

pub data Scan : Type 0 where
  number : ℕ → Scan
  not_a_number too_large : Scan

-- The digits from the left, with the number so far. A number that does not fit into 64 bits ends the
-- scan at once.
unfoldable pub scan_digits : ℕ → Text → Scan
scan_digits n [] = number n
scan_digits n (c ∷ s) =
    let n' = n * 10 + (c - b'0') in
    let rest = scan_digits n' s in
    if leb b'0' c && leb c b'9' then (if ltb n' (2 ^ 64) then rest else too_large) else not_a_number

abbrev pub scan : Text → Scan
scan [] = not_a_number
scan (c ∷ s) = scan_digits 0 (c ∷ s)

abbrev pub max_int64 : ℤ
max_int64 = pos (2 ^ 63 - 1)

abbrev pub min_int64 : ℤ
min_int64 = negsuc (2 ^ 63 - 1)

abbrev pub negated : ℕ → ℤ
negated zero = pos zero
negated (suc n) = negsuc n

-- The number, and whether there is no error: a number out of range is the last one in range.
abbrev pub without_sign : Scan → ℤ × Bool
without_sign (number n) = if ltb n (2 ^ 63) then (pos n, true) else (max_int64, false)
without_sign not_a_number = (pos 0, false)
without_sign too_large = (max_int64, false)

abbrev with_minus : Scan → ℤ × Bool
with_minus (number n) = if leb n (2 ^ 63) then (negated n, true) else (min_int64, false)
with_minus not_a_number = (pos 0, false)
with_minus too_large = (min_int64, false)

unfoldable pub atoi : Text → ℤ × Bool
unfolding scan_digits
atoi [] = (pos 0, false)
atoi (c ∷ s) =
    if c == b'-'
    then with_minus (scan s)
    else if c == b'+'
    then without_sign (scan s)
    else without_sign (scan (c ∷ s))
