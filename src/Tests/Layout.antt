-- ===== src/Tests/Layout.antt =====
-- The theorems on flags, formats, sizes and strides, at concrete arguments.
use gralloc_gbm.Base.{ℕ, ◌*◌, ◌<◌, ◌≡◌, ◌≢◌, refl, false, bit_or, ◌&&◌, not, arith}
use gralloc_gbm.Base.Bits.{has}
use gralloc_gbm.Machine.{done}
use gralloc_gbm.Hal.Usage
use gralloc_gbm.Hal.Pixel
use gralloc_gbm.Gbm.Format
use gralloc_gbm.Gbm.Use
use gralloc_gbm.Format.{color_format_map, color_fmt_a2g, color_bytes_per_pixel}
use gralloc_gbm.Format.Depth.{HasDepth}
use gralloc_gbm.Flags.{usage_flags, add_flag, bad_dumb_buffer, calculate_gbm_flags}
use gralloc_gbm.Flags.Bits.{Translates, drops, calculate_gbm_flags-Translates}
use gralloc_gbm.Size.{Size, new_size, import_size}
use gralloc_gbm.Size.Cursor.{IsModest, IsCursorSide, new_size-IsCursorSide, import_size-new_size}
use gralloc_gbm.Size.Yv12.{IsAllowed, import_size-yv12}
use gralloc_gbm.Stride.{calculate_android_pixel_stride}
use gralloc_gbm.Stride.Pixels.{pixel_stride_row}
use gralloc_gbm.Tests.{config}

-- A cursor that the GPU renders.
abbrev usage : ℕ
usage = bit_or Usage.cursor Usage.hw_render

calculate_gbm_flags-Translates_example :
    Translates config usage
      (calculate_gbm_flags config usage Format.argb8888)
      (has usage Usage.cursor && config.has_cursor && not (drops config usage Format.argb8888))
calculate_gbm_flags-Translates_example = calculate_gbm_flags-Translates config usage Format.argb8888

fine : bad_dumb_buffer (usage_flags config usage) Format.argb8888 ≡ false
unfolding bad_dumb_buffer usage_flags add_flag
fine = refl

abbrev small : Size
small = record { width = 30; height = 65 }

small-IsModest : IsModest small
small-IsModest = record { width = omega arith; height = omega arith }

plain : Pixel.bgra_8888 ≢ Pixel.yv12
plain e = omega arith

new_size-IsCursorSide_example :
    IsCursorSide 30 (new_size config Use.cursor Pixel.bgra_8888 small).width
    × IsCursorSide 65 (new_size config Use.cursor Pixel.bgra_8888 small).height
new_size-IsCursorSide_example =
    new_size-IsCursorSide config Use.cursor Pixel.bgra_8888 small plain refl refl small-IsModest

import_size-new_size_example :
    import_size config Use.cursor Pixel.bgra_8888 (new_size config Use.cursor Pixel.bgra_8888 small)
    ≡ new_size config Use.cursor Pixel.bgra_8888 small
import_size-new_size_example =
    import_size-new_size config Use.cursor Pixel.bgra_8888 small plain small-IsModest

small-IsAllowed : IsAllowed small
small-IsAllowed = record { width = omega arith; height = omega arith }

import_size-yv12_example :
    (new_size config Use.linear Pixel.yv12 small).height
    < (import_size config Use.linear Pixel.yv12
        (new_size config Use.linear Pixel.yv12 small)).height
import_size-yv12_example =
    import_size-yv12 config Use.linear small small-IsAllowed refl (omega arith)

rgb_888-HasDepth : HasDepth Pixel.rgb_888
unfolding color_fmt_a2g color_format_map
rgb_888-HasDepth = record {
  listed = λ e. omega arith;
  not_p010 = λ e. omega arith;
  not_unknown = λ e. omega arith;
}

pixel_stride_row_example :
    calculate_android_pixel_stride Pixel.rgb_888
      (1920 * color_bytes_per_pixel (color_fmt_a2g Pixel.rgb_888))
    ≡ done 1920
pixel_stride_row_example = pixel_stride_row Pixel.rgb_888 1920 rgb_888-HasDepth
