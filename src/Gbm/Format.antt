-- ===== src/Gbm/Format.antt =====
-- The `GBM_FORMAT_*` that the program names, by the macro `__gbm_fourcc_code` of include/gbm.h.
use gralloc_gbm.Base.{ℕ, ◌*◌, ◌^◌, bit_or}

abbrev pub fourcc : ℕ → ℕ → ℕ → ℕ → ℕ
fourcc a b c d = bit_or (bit_or (bit_or a (b * 2 ^ 8)) (c * 2 ^ 16)) (d * 2 ^ 24)

abbrev pub r8 : ℕ
r8 = fourcc b'R' b'8' b' ' b' '

abbrev pub r16 : ℕ
r16 = fourcc b'R' b'1' b'6' b' '

abbrev pub gr88 : ℕ
gr88 = fourcc b'G' b'R' b'8' b'8'

abbrev pub bgr565 : ℕ
bgr565 = fourcc b'B' b'G' b'1' b'6'

abbrev pub rgb565 : ℕ
rgb565 = fourcc b'R' b'G' b'1' b'6'

abbrev pub bgr888 : ℕ
bgr888 = fourcc b'B' b'G' b'2' b'4'

abbrev pub xrgb8888 : ℕ
xrgb8888 = fourcc b'X' b'R' b'2' b'4'

abbrev pub xbgr8888 : ℕ
xbgr8888 = fourcc b'X' b'B' b'2' b'4'

abbrev pub rgbx8888 : ℕ
rgbx8888 = fourcc b'R' b'X' b'2' b'4'

abbrev pub argb8888 : ℕ
argb8888 = fourcc b'A' b'R' b'2' b'4'

abbrev pub abgr8888 : ℕ
abgr8888 = fourcc b'A' b'B' b'2' b'4'

abbrev pub abgr2101010 : ℕ
abgr2101010 = fourcc b'A' b'B' b'3' b'0'

abbrev pub abgr16161616f : ℕ
abgr16161616f = fourcc b'A' b'B' b'4' b'H'

abbrev pub vyuy : ℕ
vyuy = fourcc b'V' b'Y' b'U' b'Y'

abbrev pub nv12 : ℕ
nv12 = fourcc b'N' b'V' b'1' b'2'

abbrev pub nv21 : ℕ
nv21 = fourcc b'N' b'V' b'2' b'1'

abbrev pub yuv420 : ℕ
yuv420 = fourcc b'Y' b'U' b'1' b'2'

abbrev pub yvu420 : ℕ
yvu420 = fourcc b'Y' b'V' b'1' b'2'

abbrev pub yuv422 : ℕ
yuv422 = fourcc b'Y' b'U' b'1' b'6'
