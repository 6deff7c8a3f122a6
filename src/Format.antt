-- ===== src/Format.antt =====
-- include/gralloc_gbm_format.h: the tables of colour formats and the functions that search them.
pub mod Search
pub mod Depth
use Prim.Native.String.{String}
use gralloc_gbm.Base.{
  ℕ, ◌+◌, ◌-◌, ◌*◌, ◌/◌, ◌%◌, ◌^◌, Bool, List, [], ◌∷◌, ltb, ◌==◌, if◌then◌else◌,
}
use gralloc_gbm.Hal
use gralloc_gbm.Hal.Pixel
use gralloc_gbm.Gbm.Format
use gralloc_gbm.Machine.{neg_einval}

pub record ColorFormat : Type 0 where
  pub android_format : ℕ
  pub android_name : String
  pub gbm_format : ℕ
  pub gbm_name : String

abbrev entry : ℕ → String → ℕ → String → ColorFormat
entry a an g gn = record { android_format = a; android_name = an; gbm_format = g; gbm_name = gn }

-- `HAL_PIXEL_FORMAT_EXT_UNKNOWN`, `GBM_FORMAT_EXT_UNKNOWN` and the code of P010.
abbrev pub android_unknown : ℕ
android_unknown = 0

abbrev pub gbm_unknown : ℕ
gbm_unknown = Format.fourcc b'0' b'0' b'0' b'0'

abbrev pub p010 : ℕ
p010 = Format.fourcc b'P' b'0' b'1' b'0'

unfoldable pub color_format_map : List ColorFormat
color_format_map =
    entry Pixel.rgba_8888 "HAL_PIXEL_FORMAT_RGBA_8888" Format.abgr8888 "GBM_FORMAT_ABGR8888"
    ∷ entry Pixel.rgbx_8888 "HAL_PIXEL_FORMAT_RGBX_8888" Format.xbgr8888 "GBM_FORMAT_XBGR8888"
    ∷ entry Pixel.bgra_8888 "HAL_PIXEL_FORMAT_BGRA_8888" Format.argb8888 "GBM_FORMAT_ARGB8888"
    ∷ entry Pixel.rgb_888 "HAL_PIXEL_FORMAT_RGB_888" Format.bgr888 "GBM_FORMAT_BGR888"
    ∷ entry Pixel.rgb_565 "HAL_PIXEL_FORMAT_RGB_565" Format.bgr565 "GBM_FORMAT_BGR565"
    ∷ entry Pixel.ycbcr_422_sp "HAL_PIXEL_FORMAT_YCBCR_422_SP" Format.yuv422 "GBM_FORMAT_YUV422"
    ∷ entry Pixel.ycrcb_420_sp "HAL_PIXEL_FORMAT_YCRCB_420_SP" Format.yvu420 "GBM_FORMAT_YVU420"
    ∷ entry Pixel.ycbcr_422_i "HAL_PIXEL_FORMAT_YCBCR_422_I" Format.vyuy "GBM_FORMAT_VYUY"
    ∷ entry Pixel.ycbcr_420_888 "HAL_PIXEL_FORMAT_YCBCR_420_888" Format.yuv420 "GBM_FORMAT_YUV420"
    ∷ entry Pixel.rgba_1010102 "HAL_PIXEL_FORMAT_RGBA_1010102" Format.abgr2101010
        "GBM_FORMAT_ABGR2101010"
    ∷ entry Pixel.y8 "HAL_PIXEL_FORMAT_Y8" Format.r8 "GBM_FORMAT_R8"
    ∷ entry Pixel.y16 "HAL_PIXEL_FORMAT_Y16" Format.r16 "GBM_FORMAT_R16"
    ∷ entry Pixel.yv12 "HAL_PIXEL_FORMAT_YV12" Format.gr88 "GBM_FORMAT_GR88"
    ∷ entry Pixel.rgba_fp16 "HAL_PIXEL_FORMAT_RGBA_FP16" Format.abgr16161616f
        "GBM_FORMAT_ABGR16161616F"
    ∷ entry Pixel.ycbcr_p010 "HAL_PIXEL_FORMAT_YCBCR_P010" p010 "GBM_FOURCC_CODE_P010"
    ∷ entry android_unknown "HAL_PIXEL_FORMAT_EXT_UNKNOWN" gbm_unknown "GBM_FORMAT_EXT_UNKNOWN"
    ∷ []

-- The loop of `color_fmt_a2g` over the rest of the table, and its `-EINVAL` as a `uint32_t`.
unfoldable pub search_android : List ColorFormat → ℕ → ℕ
search_android [] f = neg_einval
search_android (c ∷ cs) f = if c.android_format == f then c.gbm_format else search_android cs f

unfoldable pub color_fmt_a2g : ℕ → ℕ
unfolding search_android
color_fmt_a2g f = search_android color_format_map f

-- The loop of `color_fmt_g2a`.
unfoldable pub search_gbm : List ColorFormat → ℕ → ℕ
search_gbm [] f = neg_einval
search_gbm (c ∷ cs) f = if c.gbm_format == f then c.android_format else search_gbm cs f

unfoldable pub color_fmt_g2a : ℕ → ℕ
unfolding search_gbm
color_fmt_g2a f = search_gbm color_format_map f

-- What `color_fmt_getname` returns: a name of the table, or the text
-- "(no matched format for %u)" with the number.
pub data Name : Type 0 where
  known : String → Name
  unmatched : ℕ → Name

unfoldable pub search_name : List ColorFormat → ℕ → Bool → Name
search_name [] f is_gbm = unmatched f
search_name (c ∷ cs) f is_gbm =
    let rest = search_name cs f is_gbm in
    if is_gbm
    then (if c.gbm_format == f then known c.gbm_name else rest)
    else (if c.android_format == f then known c.android_name else rest)

unfoldable pub color_fmt_getname : ℕ → Bool → Name
unfolding search_name
color_fmt_getname f is_gbm = search_name color_format_map f is_gbm

pub record ColorBpp : Type 0 where
  pub gbm_format : ℕ
  pub bpp : ℕ

abbrev bits : ℕ → ℕ → ColorBpp
bits g n = record { gbm_format = g; bpp = n }

-- The source writes the first formats as `color_format_map[i].gbm_format`, and names them in
-- comments; they stand here by these names.
unfoldable pub color_bpp_map : List ColorBpp
color_bpp_map =
    bits Format.abgr8888 32
    ∷ bits Format.xbgr8888 32
    ∷ bits Format.argb8888 32
    ∷ bits Format.bgr888 24
    ∷ bits Format.bgr565 16
    ∷ bits Format.yuv422 16
    ∷ bits Format.yvu420 12
    ∷ bits Format.vyuy 32
    ∷ bits Format.yuv420 12
    ∷ bits Format.abgr2101010 32
    ∷ bits Format.r8 8
    ∷ bits Format.r16 16
    ∷ bits Format.gr88 16
    ∷ bits Format.abgr16161616f 64
    ∷ bits Format.rgb565 16
    ∷ bits Format.nv12 8
    ∷ bits Format.nv21 16
    ∷ bits Format.rgbx8888 32
    ∷ bits Format.xrgb8888 32
    ∷ bits gbm_unknown 0
    ∷ []

-- `return -1` as a `uint8_t`.
abbrev pub no_bpp : ℕ
no_bpp = 255

unfoldable pub search_bpp : List ColorBpp → ℕ → ℕ
search_bpp [] f = no_bpp
search_bpp (c ∷ cs) f = if c.gbm_format == f then c.bpp else search_bpp cs f

unfoldable pub color_bpp : ℕ → ℕ
unfolding search_bpp
color_bpp f = search_bpp color_bpp_map f

unfoldable pub search_bytes : List ColorBpp → ℕ → ℕ
search_bytes [] f = no_bpp
search_bytes (c ∷ cs) f = if c.gbm_format == f then c.bpp / 8 else search_bytes cs f

unfoldable pub color_bytes_per_pixel : ℕ → ℕ
unfolding search_bytes
color_bytes_per_pixel f = search_bytes color_bpp_map f

-- The product is cut to the `uint8_t` that the function returns.
unfoldable pub color_pitch : ℕ → ℕ → ℕ
color_pitch width f = color_bytes_per_pixel f * width % 2 ^ 8

unfoldable pub color_stride : ℕ → ℕ
color_stride f = let bpp = color_bpp f in if ltb 0 bpp then (bpp + 7) / 8 else 4
