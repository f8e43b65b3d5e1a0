-- ===== src/Common/Duration.antt =====
-- Go's `time.Duration`: nanoseconds in 64 bits with a sign.
use ssh_tunnel_manager.Common.{ℕ, suc, ◌-◌, ◌*◌, ◌%◌, ◌^◌, ◌≤◌, ◌≡◌, ltb, arith, if◌then◌else◌}
use ssh_tunnel_manager.Common.Int.{ℤ}

-- The number that these 64 bits are.
abbrev pub signed : ℕ → ℤ
signed w = if ltb w (2 ^ 63) then ℤ.pos w else ℤ.negsuc (2 ^ 64 - 1 - w)

-- `time.Duration(n) * time.Second`, which wraps around.
unfoldable pub seconds : ℤ → ℤ
seconds (ℤ.pos n) = signed (n * 1000000000 % 2 ^ 64)
seconds (ℤ.negsuc n) = signed ((2 ^ 64 - suc n * 1000000000 % 2 ^ 64) % 2 ^ 64)

-- Up to 9223372036 seconds nothing is lost.
pub seconds-pos : (n : ℕ) → n ≤ 9223372036 → seconds (ℤ.pos n) ≡ ℤ.pos (n * 1000000000)
unfolding seconds
seconds-pos n h = ground (arith, h)
