-- ===== src/Base/Words.antt =====
-- Machine words as native numbers: the bounds, and the saturating and checked operations of the
-- standard library. `saturating_sub` on an unsigned word is the truncated `-` of the numbers.
use Prim.Native.Nat.{ℕ, ◌+◌, ◌-◌, ◌*◌, ◌%◌, ◌^◌, min}
use mathlib.Core.Option.{Option, none, some}
use directswarm.Base.Tests.{ltb, if◌then◌else◌}

abbrev pub u32_max : ℕ
u32_max = 2 ^ 32 - 1

abbrev pub u64_max : ℕ
u64_max = 2 ^ 64 - 1

abbrev pub u128_max : ℕ
u128_max = 2 ^ 128 - 1

abbrev pub u256_max : ℕ
u256_max = 2 ^ 256 - 1

-- `u64::saturating_add`.
abbrev pub sat_add : ℕ → ℕ → ℕ
sat_add a b = min (a + b) u64_max

-- `u64::saturating_mul`.
abbrev pub sat_mul : ℕ → ℕ → ℕ
sat_mul a b = min (a * b) u64_max

-- `fetch_add` and `fetch_sub` on an `AtomicU64` wrap around.
abbrev pub wrap_add : ℕ → ℕ → ℕ
wrap_add a b = (a + b) % 2 ^ 64

abbrev pub wrap_sub : ℕ → ℕ → ℕ
wrap_sub a b = (a + 2 ^ 64 - b) % 2 ^ 64

-- A `try_from` or a checked operation whose result must not exceed the bound.
abbrev pub fit : ℕ → ℕ → Option ℕ
fit bound n = if ltb bound n then none else some n
