-- ===== src/Prelude/Words.antt =====
-- Rust's fixed-width integers: a u64 is a number up to `u64_max`, an i64 an integer in range; the
-- checked operations return `none` where the source's do.
use agentpay.Prelude.{ℕ, ◌+◌, ◌-◌, ◌≤◌, Bool, Option, none, some, leb, if◌then◌else◌}
use agentpay.Prelude.Int.{ℤ, pos, negsuc, ◌+ℤ◌, ◌-ℤ◌}

abbrev pub u64_max : ℕ
u64_max = 18446744073709551615

abbrev pub i64_max : ℕ
i64_max = 9223372036854775807

-- `u64::checked_add`, `u64::checked_sub`
abbrev pub checked_add : ℕ → ℕ → Option ℕ
checked_add a b = if leb (a + b) u64_max then some (a + b) else none

abbrev pub checked_sub : ℕ → ℕ → Option ℕ
checked_sub a b = if leb b a then some (a - b) else none

abbrev pub fits_i64 : ℤ → Bool
fits_i64 (pos n) = leb n i64_max
fits_i64 (negsuc n) = leb n i64_max

-- What it takes to be an i64.
abbrev pub IsI64 : ℤ → Type 0
IsI64 (pos n) = n ≤ i64_max
IsI64 (negsuc n) = n ≤ i64_max

-- `i64::checked_add`, `i64::checked_sub`
abbrev pub checked_add_i64 : ℤ → ℤ → Option ℤ
checked_add_i64 a b = let s = a +ℤ b in if fits_i64 s then some s else none

abbrev pub checked_sub_i64 : ℤ → ℤ → Option ℤ
checked_sub_i64 a b = let s = a -ℤ b in if fits_i64 s then some s else none
