-- ===== src/Word/Align.antt =====
-- What `ALIGN` computes at the three alignments that the program uses.
use gralloc_gbm.Base.{ℕ, ◌+◌, ◌-◌, ◌*◌, ◌/◌, ◌%◌, ◌^◌, ◌<◌, ◌≡◌, bit_and, arith}
use gralloc_gbm.Base.Bits.{bit_and-double, bit_and-ones}
use gralloc_gbm.Word.{align}

mask_even : (x : ℕ) → x < 2 ^ 32 → bit_and x (2 ^ 32 - 2) ≡ x / 2 * 2
mask_even x h = omega (arith, bit_and-double x (2 ^ 31 - 1), bit_and-ones 31 (x / 2) (omega arith))

mask_four : (x : ℕ) → x < 2 ^ 32 → bit_and x (2 ^ 32 - 4) ≡ x / 4 * 4
mask_four x h = omega (
  arith,
  bit_and-double x (2 ^ 31 - 2),
  bit_and-double (x / 2) (2 ^ 30 - 1),
  bit_and-ones 30 (x / 2 / 2) (omega arith),
)

mask_32 : (x : ℕ) → x < 2 ^ 32 → bit_and x (2 ^ 32 - 32) ≡ x / 32 * 32
mask_32 x h = omega (
  arith,
  bit_and-double x (2 ^ 31 - 16),
  bit_and-double (x / 2) (2 ^ 30 - 8),
  bit_and-double (x / 2 / 2) (2 ^ 29 - 4),
  bit_and-double (x / 2 / 2 / 2) (2 ^ 28 - 2),
  bit_and-double (x / 2 / 2 / 2 / 2) (2 ^ 27 - 1),
  bit_and-ones 27 (x / 2 / 2 / 2 / 2 / 2) (omega arith),
)

-- Below the point of overflow each is the next multiple.
pub align_two : (a : ℕ) → a + 1 < 2 ^ 32 → align a 2 ≡ (a + 1) / 2 * 2
unfolding align
align_two a h = omega (arith, mask_even ((a + 1) % 2 ^ 32) (omega arith))

pub align_four : (a : ℕ) → a + 3 < 2 ^ 32 → align a 4 ≡ (a + 3) / 4 * 4
unfolding align
align_four a h = omega (arith, mask_four ((a + 3) % 2 ^ 32) (omega arith))

pub align_32 : (a : ℕ) → a + 31 < 2 ^ 32 → align a 32 ≡ (a + 31) / 32 * 32
unfolding align
align_32 a h = omega (arith, mask_32 ((a + 31) % 2 ^ 32) (omega arith))
