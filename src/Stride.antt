-- ===== src/Stride.antt =====
-- gralloc_gbm_calculate_android_pixel_stride of common/gralloc_gbm.c.
pub mod Pixels
use gralloc_gbm.Base.{ℕ, ◌/◌, ◌==◌, if◌then◌else◌}
use gralloc_gbm.Machine.{Outcome, done, fault, division_by_zero, neg_einval}
use gralloc_gbm.Format.{color_fmt_a2g, color_bytes_per_pixel}

-- The test `gbm_format <= 0` is on a `uint32_t`, so it is a test for 0.
unfoldable pub calculate_android_pixel_stride : ℕ → ℕ → Outcome ℕ
calculate_android_pixel_stride format gbm_stride =
    let gbm_format = color_fmt_a2g format in
    let bytes = color_bytes_per_pixel gbm_format in
    if gbm_format == 0
    then done neg_einval
    else (if bytes == 0 then fault division_by_zero else done (gbm_stride / bytes))
