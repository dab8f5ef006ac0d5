-- ===== src/Server/Growth.antt =====
-- The capacity of a connection's buffer.
use haze.Base.{ℕ, zero, suc, ◌+◌, ◌*◌, ◌≤◌, ◌<◌, arith}
use haze.Server.{grow_cap}

grow_cap_lower : (fuel cap need : ℕ) → 0 < cap → need ≤ cap + fuel → need ≤ grow_cap fuel cap need
unfolding grow_cap
grow_cap_lower zero cap need p k = omega arith
grow_cap_lower (suc fuel) cap need p k = ground (arith, grow_cap_lower fuel (cap * 2) need)

grow_cap_upper : (fuel cap need : ℕ) → cap < 2 * need → grow_cap fuel cap need < 2 * need
unfolding grow_cap
grow_cap_upper zero cap need k = k
grow_cap_upper (suc fuel) cap need k = ground (arith, grow_cap_upper fuel (cap * 2) need)

-- Doubling a capacity that is too small, for as many rounds as bytes are needed, reaches a capacity
-- that holds them and is less than twice what they need; below 2 ^ 63 bytes it is a size_t.
pub grow_cap_fits :
    (cap need : ℕ)
    → 0 < cap
    → cap < need
    → (need ≤ grow_cap need cap need) × (grow_cap need cap need < 2 * need)
grow_cap_fits cap need p k =
    (grow_cap_lower need cap need p (omega arith), grow_cap_upper need cap need (omega arith))
