-- ===== src/Prelude/Words.antt =====
-- Machine words as native numbers. The target is the MSP430 of the `sky` platform, where `int` has
-- 16 bits, `long` has 32 and `rtimer_clock_t` is an unsigned 16-bit number.
use tsch_minimum.Prelude.{ℕ, ◌+◌, ◌-◌, ◌/◌, ◌%◌, ◌^◌, Bool, ◌==◌, if◌then◌else◌}

-- Conversions to the unsigned types.
abbrev pub u8 : ℕ → ℕ
u8 x = x % 256

abbrev pub u16 : ℕ → ℕ
u16 x = x % 65536

abbrev pub u32 : ℕ → ℕ
u32 x = x % 4294967296

-- `a - b` in 16 bits.
abbrev pub sub16 : ℕ → ℕ → ℕ
sub16 a b = (a + 65536 - b % 65536) % 65536

-- `x & (1 << k)`, as the test that it is used for.
abbrev pub has_bit : ℕ → ℕ → Bool
has_bit x k = x / 2 ^ k % 2 == 1

-- `x | (1 << k)`.
abbrev pub set_bit : ℕ → ℕ → ℕ
set_bit x k = if has_bit x k then x else x + 2 ^ k

-- `x & ~(1 << k)`.
abbrev pub clear_bit : ℕ → ℕ → ℕ
clear_bit x k = if has_bit x k then x - 2 ^ k else x

-- `x & ((1 << k) - 1)` and `x >> k`.
abbrev pub low_bits : ℕ → ℕ → ℕ
low_bits x k = x % 2 ^ k

abbrev pub shr : ℕ → ℕ → ℕ
shr x k = x / 2 ^ k

-- A C truth value.
abbrev pub to_bool : ℕ → Bool
to_bool x = if x == 0 then Bool.false else Bool.true
