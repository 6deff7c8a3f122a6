-- ===== src/Hal/Pixel.antt =====
-- `HAL_PIXEL_FORMAT_*` of system/graphics.h.
use gralloc_gbm.Base.{ℕ}

abbrev pub rgba_8888 : ℕ
rgba_8888 = 1

abbrev pub rgbx_8888 : ℕ
rgbx_8888 = 2

abbrev pub rgb_888 : ℕ
rgb_888 = 3

abbrev pub rgb_565 : ℕ
rgb_565 = 4

abbrev pub bgra_8888 : ℕ
bgra_8888 = 5

abbrev pub ycbcr_422_sp : ℕ
ycbcr_422_sp = 0x10

abbrev pub ycrcb_420_sp : ℕ
ycrcb_420_sp = 0x11

abbrev pub ycbcr_422_i : ℕ
ycbcr_422_i = 0x14

abbrev pub rgba_fp16 : ℕ
rgba_fp16 = 0x16

abbrev pub blob : ℕ
blob = 0x21

abbrev pub ycbcr_420_888 : ℕ
ycbcr_420_888 = 0x23

abbrev pub rgba_1010102 : ℕ
rgba_1010102 = 0x2b

abbrev pub ycbcr_p010 : ℕ
ycbcr_p010 = 0x36

abbrev pub y8 : ℕ
y8 = 0x20203859

abbrev pub y16 : ℕ
y16 = 0x20363159

abbrev pub yv12 : ℕ
yv12 = 0x32315659
