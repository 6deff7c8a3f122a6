-- ===== src/Word.antt =====
-- 32-bit words. An `int`, `int32_t` or `uint32_t` of the program is held as its bit pattern, a
-- number below `2 ^ 32`; what C does with the sign is written out at each operation. The macros
-- `MAX` and `ALIGN` are those of include/gralloc_gbm_format.h.
pub mod Align
use gralloc_gbm.Base.{
  ℕ, ◌+◌, ◌-◌, ◌*◌, ◌/◌, ◌%◌, ◌^◌, ◌≡◌, ◌<◌, Bool, bit_and, arith, ltb, leb, if◌then◌else◌,
}

-- The conversion to a 32-bit word.
abbrev pub u32 : ℕ → ℕ
u32 x = x % 2 ^ 32

-- The sign bit of an `int32_t`.
abbrev pub is_negative : ℕ → Bool
is_negative x = leb (2 ^ 31) x

-- `-x` on the bit pattern.
abbrev pub negate : ℕ → ℕ
negate x = (2 ^ 32 - x) % 2 ^ 32

-- `a < b` of two `int32_t`.
abbrev pub less_signed : ℕ → ℕ → Bool
less_signed a b = ltb ((a + 2 ^ 31) % 2 ^ 32) ((b + 2 ^ 31) % 2 ^ 32)

-- `MAX(A, B)` of two `int32_t`, and of two `uint32_t`.
unfoldable pub max_signed : ℕ → ℕ → ℕ
max_signed a b = if less_signed b a then a else b

unfoldable pub max_unsigned : ℕ → ℕ → ℕ
max_unsigned a b = if ltb b a then a else b

-- `ALIGN(A, B)`, `(A + (B - 1)) & ~(B - 1)`, in 32 bits; `~(B - 1)` is the pattern of `-B`.
unfoldable pub align : ℕ → ℕ → ℕ
align a b = bit_and ((a + (b - 1)) % 2 ^ 32) (2 ^ 32 - b)

-- `a / b` of an `int32_t` by a positive constant: C rounds towards zero.
unfoldable pub div_signed : ℕ → ℕ → ℕ
div_signed a b = if is_negative a then negate (negate a / b) else a / b

-- The conversion of an `int32_t` to a 64-bit word.
abbrev pub sign_extend : ℕ → ℕ
sign_extend x = if is_negative x then x + (2 ^ 64 - 2 ^ 32) else x
