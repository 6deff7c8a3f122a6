-- ===== src/Size/Yv12.antt =====
-- YV12 buffers: the size of the GR88 buffer object, and what importing makes of it.
use gralloc_gbm.Base.{ℕ, ◌+◌, ◌*◌, ◌/◌, ◌^◌, ◌≤◌, ◌<◌, ◌≡◌, refl, ap, false, arith}
use gralloc_gbm.Base.Bits.{has}
use gralloc_gbm.Word.{align, div_signed}
use gralloc_gbm.Word.Align.{align_two, align_32}
use gralloc_gbm.Hal.Pixel
use gralloc_gbm.Gbm.Use
use gralloc_gbm.Flags.{Config}
use gralloc_gbm.Size.{Size, new_cursor_size, new_size, import_size}

-- The bounds that gralloc_gbm_is_allocator_desc_supported sets, on a size that is not negative.
pub record IsAllowed (s : Size) : Type 0 where
  pub width : s.width ≤ 16384
  pub height : s.height ≤ 16384

signed_half : (a : ℕ) → a < 2 ^ 31 → div_signed a 2 ≡ a / 2
unfolding div_signed
signed_half a h = ground arith

new_width : (w : ℕ) → w ≤ 16384 → div_signed (align w 32) 2 ≡ (w + 31) / 32 * 16
new_width w h =
    let aligned = align_32 w (omega arith) in
    omega (arith, aligned, signed_half (align w 32) (omega arith))

new_rows : (h : ℕ) → h ≤ 16384 → div_signed (align h 2) 2 ≡ (h + 1) / 2
new_rows h small =
    let aligned = align_two h (omega arith) in
    omega (arith, aligned, signed_half (align h 2) (omega arith))

module _ (c : Config) (flags : ℕ) (d : Size) (allowed : IsAllowed d)
    (plain : has flags Use.cursor ≡ false) where
  yv12_size_lem :
      new_size c flags Pixel.yv12 d
      ≡ record { width = (d.width + 31) / 32 * 16; height = d.height + (d.height + 1) / 2 }
  unfolding new_size new_cursor_size
  yv12_size_lem =
      rw (plain, new_width d.width allowed.width, new_rows d.height allowed.height)
        (ap (λ (t : ℕ). record { width = (d.width + 31) / 32 * 16; height = t }) (omega arith))

  -- A YV12 image that is no cursor, within the allowed size, gets a buffer object of two-byte
  -- pixels whose row holds the image's row, rounded up to 32 bytes, and whose rows are the image's
  -- rows and, for the two chroma planes, half as many again, rounded up.
  pub new_size-yv12 :
      (2 * (new_size c flags Pixel.yv12 d).width ≡ align d.width 32)
      × ((new_size c flags Pixel.yv12 d).height ≡ d.height + (d.height + 1) / 2)
  new_size-yv12 = rw yv12_size_lem (omega (arith, align_32 d.width (omega arith)), refl)

  -- Importing the handle of such an image applies the adjustment a second time: for an image with
  -- at least one row it asks for more rows than the buffer object has.
  pub import_size-yv12 :
      0 < d.height
      → (new_size c flags Pixel.yv12 d).height
        < (import_size c flags Pixel.yv12 (new_size c flags Pixel.yv12 d)).height
  unfolding import_size
  import_size-yv12 rows =
      rw (yv12_size_lem, plain)
        (omega (arith, align_two (d.height + (d.height + 1) / 2) (omega arith)))
