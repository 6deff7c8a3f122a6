-- ===== src/Flags.antt =====
-- gralloc_gbm_calculate_gbm_flags of common/gralloc_gbm.c: from Android usage bits to the flags of a
-- buffer object. The build's macros are the fields of `Config`.
pub mod Bits
use gralloc_gbm.Base.{ℕ, ◌-◌, ◌^◌, Bool, bit_and, bit_or, ◌&&◌, ◌||◌, not, ◌==◌, if◌then◌else◌}
use gralloc_gbm.Base.Bits.{has}
use gralloc_gbm.Hal.Usage
use gralloc_gbm.Gbm.Format
use gralloc_gbm.Gbm.Use

pub record Config : Type 0 where
  pub use_sw_render : Bool  -- GRALLOC_GBM_USE_SW_RENDER
  pub no_cursor_rendering : Bool  -- GRALLOC_GBM_NO_CURSOR_RENDERING
  pub no_cursor_aligning : Bool  -- GRALLOC_GBM_NO_CURSOR_ALIGNING
  pub has_cursor : Bool  -- ANDROID_API_LEVEL >= 35

-- `if (test) flags |= mask;`
unfoldable pub add_flag : Bool → ℕ → ℕ → ℕ
add_flag test mask flags = if test then bit_or flags mask else flags

-- The tests of the usage bits, in order.
unfoldable pub usage_flags : Config → ℕ → ℕ
usage_flags c usage =
    let f0 = add_flag (has usage Usage.sw_read_often) Use.linear Use.unused in
    let f1 = add_flag (has usage Usage.sw_read_rarely) Use.linear f0 in
    let f2 = add_flag (has usage Usage.sw_write_often) Use.linear f1 in
    let f3 = add_flag (has usage Usage.sw_write_often && c.use_sw_render) Use.write f2 in
    let f4 = add_flag (has usage Usage.sw_write_rarely) Use.linear f3 in
    let f5 = add_flag (has usage Usage.sw_write_rarely && c.use_sw_render) Use.write f4 in
    let f6 = add_flag (has usage Usage.hw_texture) Use.rendering f5 in
    let f7 = add_flag (has usage Usage.hw_render) Use.rendering f6 in
    let f8 = add_flag (has usage Usage.hw_2d) Use.rendering f7 in
    let f9 = add_flag (has usage Usage.hw_composer) (bit_or Use.scanout Use.rendering) f8 in
    let f10 = add_flag (has usage Usage.hw_fb) Use.scanout f9 in
    let f11 = add_flag (has usage Usage.external_disp) Use.unused f10 in
    let f12 = add_flag (has usage Usage.protected) Use.protected f11 in
    add_flag (has usage Usage.cursor && c.has_cursor) Use.cursor f12

-- The two combinations with `GBM_BO_USE_WRITE` that the DRI backend refuses.
unfoldable pub bad_dumb_buffer : ℕ → ℕ → Bool
bad_dumb_buffer flags gbm_format =
    has flags Use.write
    && ((has flags Use.cursor && not (gbm_format == Format.argb8888))
        || (has flags Use.scanout
            && (not (gbm_format == Format.xrgb8888) && not (gbm_format == Format.xbgr8888))))

unfoldable pub drop_cursor : Config → ℕ → ℕ
drop_cursor c flags =
    if (has flags Use.cursor && has flags Use.rendering) && c.no_cursor_rendering
    then bit_and flags (2 ^ 32 - 1 - Use.cursor)
    else flags

unfoldable pub calculate_gbm_flags : Config → ℕ → ℕ → ℕ
calculate_gbm_flags c usage gbm_format =
    let flags = usage_flags c usage in
    if bad_dumb_buffer flags gbm_format then flags else drop_cursor c flags
