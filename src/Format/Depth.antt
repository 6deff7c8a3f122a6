-- ===== src/Format/Depth.antt =====
-- color_bpp_map of include/gralloc_gbm_format.h against color_format_map, and the functions that
-- read it.
use gralloc_gbm.Base.{ℕ, ◌*◌, ◌≤◌, ◌<◌, ◌≡◌, ◌≢◌, ◌↔◌, ◌⊎◌, inl, inr, ◌∙◌, All, arith}
use gralloc_gbm.Machine.{neg_einval}
use gralloc_gbm.Format.{
  ColorFormat, color_format_map, color_bpp_map, color_fmt_a2g, color_bytes_per_pixel, color_pitch,
  gbm_unknown, p010,
}
use gralloc_gbm.Format.Search.{color_fmt_a2g-Found}

-- A format of color_format_map that color_bpp_map gives a size.
pub record HasDepth (f : ℕ) : Type 0 where
  pub listed : color_fmt_a2g f ≢ neg_einval
  pub not_p010 : color_fmt_a2g f ≢ p010
  pub not_unknown : color_fmt_a2g f ≢ gbm_unknown

abbrev IsSized : ColorFormat → Type 0
IsSized c =
    (1 ≤ color_bytes_per_pixel c.gbm_format) × (color_bytes_per_pixel c.gbm_format ≤ 8)
    ⊎ ((c.gbm_format ≡ p010) ⊎ (c.gbm_format ≡ gbm_unknown))

table-IsSized : All IsSized color_format_map
unfolding color_format_map color_bytes_per_pixel color_bpp_map
table-IsSized = omega arith

-- A format that the table lists, other than P010 and the unknown format, has between 1 and 8 bytes
-- a pixel.
pub bytes_per_pixel_bounds :
    (f : ℕ)
    → HasDepth f
    → (1 ≤ color_bytes_per_pixel (color_fmt_a2g f)) × (color_bytes_per_pixel (color_fmt_a2g f) ≤ 8)
bytes_per_pixel_bounds f h = elim (color_fmt_a2g-Found IsSized f table-IsSized) [
  | inl e ↦ absurd (h.listed e)
  | inr (c, inl sized, key, e) ↦ rw e sized
  | inr (c, inr (inl e'), key, e) ↦ absurd (h.not_p010 (e ∙ e'))
  | inr (c, inr (inr e'), key, e) ↦ absurd (h.not_unknown (e ∙ e'))
]

-- color_pitch returns the bytes of a row exactly when they are fewer than 256.
pub color_pitch_iff :
    (width f : ℕ)
    → (color_pitch width f ≡ color_bytes_per_pixel f * width)
      ↔ (color_bytes_per_pixel f * width < 256)
unfolding color_pitch
color_pitch_iff width f = (λ e. omega arith, λ h. omega arith)
