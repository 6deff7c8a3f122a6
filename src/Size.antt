-- ===== src/Size.antt =====
-- The sizes that common/gralloc_gbm.c asks libgbm for: gralloc_gbm_android_buffer_new turns the
-- descriptor's size into the size of the buffer object, which it also stores in the handle;
-- gralloc_gbm_android_buffer_import turns the handle's size into the size to import.
pub mod Cursor
pub mod Yv12
use gralloc_gbm.Base.{ℕ, ◌+◌, ◌-◌, ◌/◌, ◌%◌, ◌^◌, Bool, not, ◌==◌, if◌then◌else◌}
use gralloc_gbm.Base.Bits.{has}
use gralloc_gbm.Word.{u32, max_signed, max_unsigned, align, div_signed}
use gralloc_gbm.Hal.Pixel
use gralloc_gbm.Gbm.Use
use gralloc_gbm.Flags.{Config}

pub record Size : Type 0 where
  pub width : ℕ
  pub height : ℕ

-- The `ALIGN(…, 4)` of both dimensions, unless the build drops it.
unfoldable pub align_cursor : Config → Size → Size
align_cursor c s =
    if c.no_cursor_aligning
    then s
    else record { width = align s.width 4; height = align s.height 4 }

-- `int32_t` arithmetic on the descriptor's size `d`.
unfoldable pub new_cursor_size : Config → ℕ → Size → Size
unfolding align_cursor
new_cursor_size c flags d =
    if has flags Use.cursor
    then align_cursor c (record { width = max_signed d.width 64; height = max_signed d.height 64 })
    else d

unfoldable pub new_size : Config → (flags format : ℕ) → Size → Size
unfolding new_cursor_size
new_size c flags format d =
    let s = new_cursor_size c flags d in
    if format == Pixel.yv12
    then record {
      width = div_signed (align d.width 32) 2;
      height = u32 (s.height + div_signed (align d.height 2) 2);
    }
    else s

-- `uint32_t` arithmetic on the handle's size `h`.
unfoldable pub import_yv12_size : ℕ → Size → Size
import_yv12_size format h =
    if format == Pixel.yv12
    then record { width = align h.width 32 / 2; height = u32 (h.height + align h.height 2 / 2) }
    else h

unfoldable pub import_size : Config → (flags format : ℕ) → Size → Size
unfolding import_yv12_size align_cursor
import_size c flags format h =
    if has flags Use.cursor
    then align_cursor c
        (record { width = max_unsigned h.width 64; height = max_unsigned h.height 64 })
    else import_yv12_size format h
