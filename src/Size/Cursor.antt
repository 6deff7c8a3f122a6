-- ===== src/Size/Cursor.antt =====
-- Cursor buffers: the size that is asked for, and what importing makes of it.
use gralloc_gbm.Base.{
  ℕ, max, ◌+◌, ◌-◌, ◌*◌, ◌/◌, ◌%◌, ◌^◌, ◌≤◌, ◌<◌, ◌≡◌, ◌≢◌, true, false, ==_ne, Bool-cases, inl,
  inr, arith,
}
use gralloc_gbm.Base.Bits.{has}
use gralloc_gbm.Word.{max_signed, max_unsigned, align}
use gralloc_gbm.Word.Align.{align_four}
use gralloc_gbm.Hal.Pixel
use gralloc_gbm.Gbm.Use
use gralloc_gbm.Flags.{Config}
use gralloc_gbm.Size.{Size, new_cursor_size, new_size, import_size}

-- A size whose parts are not negative and leave room for the rounding.
pub record IsModest (s : Size) : Type 0 where
  pub width : s.width < 2 ^ 31 - 4
  pub height : s.height < 2 ^ 31 - 4

-- `a` is the least multiple of 4 that is at least 64 and at least `d`.
abbrev pub IsCursorSide : ℕ → ℕ → Type 0
IsCursorSide d a = (a % 4 ≡ 0) × (max d 64 ≤ a) × (a < max d 64 + 4)

max_signed-max : (d : ℕ) → d < 2 ^ 31 → max_signed d 64 ≡ max d 64
unfolding max_signed
max_signed-max d h = ground arith

max_unsigned-max : (d : ℕ) → max_unsigned d 64 ≡ max d 64
unfolding max_unsigned
max_unsigned-max d = ground arith

new_side : (d : ℕ) → d < 2 ^ 31 - 4 → align (max_signed d 64) 4 ≡ (max d 64 + 3) / 4 * 4
new_side d h = rw (max_signed-max d (omega arith)) (align_four (max d 64) (omega arith))

new_side-IsCursorSide : (d : ℕ) → d < 2 ^ 31 - 4 → IsCursorSide d (align (max_signed d 64) 4)
new_side-IsCursorSide d h = omega (arith, new_side d h)

-- A side that is aligned for a cursor is left alone by `uint32_t` arithmetic.
import_side : (a : ℕ) → a % 4 ≡ 0 → 64 ≤ a → a + 3 < 2 ^ 32 → align (max_unsigned a 64) 4 ≡ a
import_side a even big small =
    let same : max_unsigned a 64 ≡ a = omega (arith, max_unsigned-max a) in
    rw same (omega (arith, align_four a small))

reimport_side :
    (d : ℕ)
    → d < 2 ^ 31 - 4
    → align (max_unsigned (align (max_signed d 64) 4) 64) 4 ≡ align (max_signed d 64) 4
reimport_side d h =
    let (even, big, small) = new_side-IsCursorSide d h in
    import_side _ even (omega arith) (omega arith)

unaligned_side : (d : ℕ) → d < 2 ^ 31 - 4 → max_unsigned (max_signed d 64) 64 ≡ max_signed d 64
unaligned_side d h =
    omega (arith, max_signed-max d (omega arith), max_unsigned-max (max_signed d 64))

module _ (c : Config) (flags format : ℕ) (d : Size) (plain : format ≢ Pixel.yv12) where
  new_size-plain : new_size c flags format d ≡ new_cursor_size c flags d
  unfolding new_size
  new_size-plain = rw (==_ne format Pixel.yv12 plain)

  -- For a cursor buffer that is not YV12, in a build that aligns cursors, both sides of the buffer
  -- object are the least multiples of 4 that are at least 64 and at least the side asked for.
  pub new_size-IsCursorSide :
      has flags Use.cursor ≡ true
      → c.no_cursor_aligning ≡ false
      → IsModest d
      → IsCursorSide d.width (new_size c flags format d).width
        × IsCursorSide d.height (new_size c flags format d).height
  unfolding new_cursor_size
  new_size-IsCursorSide cursor aligns modest =
      rw (new_size-plain, new_cursor_size, cursor, aligns)
        (new_side-IsCursorSide d.width modest.width, new_side-IsCursorSide d.height modest.height)

  -- For a format other than YV12, importing a handle asks for the size that the buffer object was
  -- created with.
  pub import_size-new_size :
      IsModest d
      → import_size c flags format (new_size c flags format d) ≡ new_size c flags format d
  unfolding import_size new_cursor_size
  import_size-new_size modest = rw new_size-plain (elim (Bool-cases (has flags Use.cursor)) [
    | inl cursor ↦ elim (Bool-cases c.no_cursor_aligning) [
      | inl raw ↦
          rw (cursor, raw)
            (rw (unaligned_side d.width modest.width, unaligned_side d.height modest.height))
      | inr aligns ↦
          rw (cursor, aligns)
            (rw (reimport_side d.width modest.width, reimport_side d.height modest.height))
    ]
    | inr other ↦ rw (other, ==_ne format Pixel.yv12 plain)
  ])
