-- ===== src/Stride/Pixels.antt =====
-- The stride in pixels of common/gralloc_gbm.c, for the formats that have a size and for those that
-- have none.
use gralloc_gbm.Base.{
  ℕ, ◌*◌, ◌/◌, ◌<◌, ◌≡◌, refl, ap, sym, ◌↔◌, ◌⊎◌, inl, inr, ◌∙◌, All, arith, ◌==◌, ==_ne, false,
}
use native.Mathlib.Nat.{mul-div_cancel}
use gralloc_gbm.Machine.{done, fault, division_by_zero, neg_einval}
use gralloc_gbm.Format.{
  ColorFormat, color_format_map, color_fmt_a2g, color_bytes_per_pixel, color_bpp_map,
  android_unknown,
}
use gralloc_gbm.Format.Search.{a2g_pos, color_fmt_a2g-Found}
use gralloc_gbm.Format.Depth.{HasDepth, bytes_per_pixel_bounds}
use gralloc_gbm.Stride.{calculate_android_pixel_stride}

unknown_faults :
    (stride : ℕ) → calculate_android_pixel_stride android_unknown stride ≡ fault division_by_zero
unfolding calculate_android_pixel_stride color_fmt_a2g color_format_map color_bytes_per_pixel
    color_bpp_map
unknown_faults stride = refl

module _ (f : ℕ) where
  not_zero : (color_fmt_a2g f == 0) ≡ false
  not_zero = ==_ne _ 0 (omega (arith, a2g_pos f))

  -- The two ends of the function that are reached.
  pub stride_divides :
      (stride : ℕ)
      → 0 < color_bytes_per_pixel (color_fmt_a2g f)
      → calculate_android_pixel_stride f stride
        ≡ done (stride / color_bytes_per_pixel (color_fmt_a2g f))
  unfolding calculate_android_pixel_stride
  stride_divides stride pos =
      rw (not_zero, ==_ne (color_bytes_per_pixel (color_fmt_a2g f)) 0 (omega arith))

  -- For a listed format with a size, the stride in pixels of a row of `width` pixels is `width`: it
  -- undoes the multiplication by the bytes of a pixel.
  pub pixel_stride_row :
      (width : ℕ)
      → HasDepth f
      → calculate_android_pixel_stride f (width * color_bytes_per_pixel (color_fmt_a2g f))
        ≡ done width
  pixel_stride_row width h =
      let pos = (bytes_per_pixel_bounds f h).0 in
      stride_divides _ pos ∙ ap done (mul-div_cancel width pos)

  abbrev HasSize : ColorFormat → Type 0
  HasSize c = (0 < color_bytes_per_pixel c.gbm_format) ⊎ (c.android_format ≡ android_unknown)

  table-HasSize : All HasSize color_format_map
  unfolding color_format_map color_bytes_per_pixel color_bpp_map
  table-HasSize = omega arith

  unlisted_bytes : color_fmt_a2g f ≡ neg_einval → 0 < color_bytes_per_pixel (color_fmt_a2g f)
  unfolding color_bytes_per_pixel color_bpp_map
  unlisted_bytes e = rw e (omega arith)

  bytes_or_unknown : (0 < color_bytes_per_pixel (color_fmt_a2g f)) ⊎ (f ≡ android_unknown)
  bytes_or_unknown = elim (color_fmt_a2g-Found HasSize f table-HasSize) [
    | inl e ↦ inl (unlisted_bytes e)
    | inr (c, inl pos, key, e) ↦ inl (rw e pos)
    | inr (c, inr unknown, key, e) ↦ inr (sym key ∙ unknown)
  ]

  -- The function divides by zero for the format 0, `HAL_PIXEL_FORMAT_EXT_UNKNOWN`, and for no other.
  pub pixel_stride_faults :
      (stride : ℕ)
      → (calculate_android_pixel_stride f stride ≡ fault division_by_zero) ↔ (f ≡ android_unknown)
  pixel_stride_faults stride = (
    λ e. elim bytes_or_unknown [
      | inl pos ↦ absurd (apart (sym (stride_divides stride pos) ∙ e))
      | inr unknown ↦ unknown
    ],
    λ e. rw e (unknown_faults stride),
  )
    where
      apart : {n : ℕ} → done n ≡ fault division_by_zero → ⊥
      apart e = cc
