-- ===== src/Planes/Fit.antt =====
-- The planes of mapper_stablec/MapperPlaneLayouts.hpp against the formats of
-- include/gralloc_gbm_format.h.
use gralloc_gbm.Base.{
  ℕ, ◌+◌, ◌*◌, ◌/◌, ◌≡◌, refl, ◌∙◌, Bool, true, ◌&&◌, ◌||◌, leb, List, [], ◌∷◌, some, all, All, ◌⊎◌,
  inl, inr, arith,
}
use gralloc_gbm.Format.{
  ColorFormat, color_format_map, color_fmt_a2g, color_bpp, color_bpp_map, gbm_unknown, p010,
}
use gralloc_gbm.Format.Search.{color_fmt_a2g-Found}
use gralloc_gbm.Format.Depth.{HasDepth}
use gralloc_gbm.Planes.{Component, PlaneLayout, FormatLayouts}
use gralloc_gbm.Planes.Table.{plane_layouts_map}
use gralloc_gbm.Planes.Lookup.{find_layouts, get_plane_layouts}

-- The bits of two components are apart.
abbrev pub are_apart : Component → Component → Bool
are_apart c e =
    leb (c.offset_in_bits + c.size_in_bits) e.offset_in_bits
    || leb (e.offset_in_bits + e.size_in_bits) c.offset_in_bits

abbrev pub pairwise_apart : List Component → Bool
pairwise_apart [] = true
pairwise_apart (c ∷ cs) = all (are_apart c) cs && pairwise_apart cs

-- The components lie within a sample, and their bits do not overlap.
abbrev pub fits : PlaneLayout → Bool
fits l =
    all (λ c. leb (c.offset_in_bits + c.size_in_bits) l.sample_increment_in_bits) l.components
    && pairwise_apart l.components

-- The bits that a pixel takes in all planes.
abbrev pub bits_per_pixel : List PlaneLayout → ℕ
bits_per_pixel [] = 0
bits_per_pixel (l ∷ ls) =
    l.sample_increment_in_bits / (l.horizontal_subsampling * l.vertical_subsampling)
    + bits_per_pixel ls

find_layouts-all :
    (q : PlaneLayout → Bool) (f : ℕ) (es : List FormatLayouts) (ls : List PlaneLayout)
    → all (λ e. all q e.layouts) es ≡ true
    → find_layouts f es ≡ some ls
    → all q ls ≡ true
unfolding find_layouts
find_layouts-all q f [] ls h found = cc
find_layouts-all q f (e ∷ es) ls h found = ground (arith, find_layouts-all q f es ls)

table_fits : all (λ e. all fits e.layouts) plane_layouts_map ≡ true
unfolding plane_layouts_map color_bpp color_bpp_map
table_fits = refl

-- For every format that has plane layouts, the components of each plane lie within its samples and
-- do not overlap.
pub get_plane_layouts-fits :
    (f : ℕ) (ls : List PlaneLayout) → get_plane_layouts f ≡ some ls → all fits ls ≡ true
unfolding get_plane_layouts
get_plane_layouts-fits f ls found = find_layouts-all fits f plane_layouts_map ls table_fits found

-- A GBM format has planes, and they take the bits of a pixel that color_bpp_map gives it.
abbrev pub HasPlanes : ℕ → Type 0
HasPlanes g =
    (ls : List PlaneLayout) × (get_plane_layouts g ≡ some ls) × (bits_per_pixel ls ≡ color_bpp g)

abbrev IsPlanar : ColorFormat → Type 0
IsPlanar c = HasPlanes c.gbm_format ⊎ ((c.gbm_format ≡ p010) ⊎ (c.gbm_format ≡ gbm_unknown))

table-IsPlanar : All IsPlanar color_format_map
unfolding color_format_map get_plane_layouts plane_layouts_map color_bpp color_bpp_map
table-IsPlanar = (
  inl (_, refl, refl),
  (
    inl (_, refl, refl),
    (
      inl (_, refl, refl),
      (
        inl (_, refl, refl),
        (
          inl (_, refl, refl),
          (
            inl (_, refl, refl),
            (
              inl (_, refl, refl),
              (
                inl (_, refl, refl),
                (
                  inl (_, refl, refl),
                  (
                    inl (_, refl, refl),
                    (
                      inl (_, refl, refl),
                      (
                        inl (_, refl, refl),
                        (
                          inl (_, refl, refl),
                          (inl (_, refl, refl), (inr (inl refl), (inr (inr refl), tt))),
                        ),
                      ),
                    ),
                  ),
                ),
              ),
            ),
          ),
        ),
      ),
    ),
  ),
)

-- Every Android format that the table of formats lists, other than P010 and the unknown format, has
-- plane layouts, and their planes take the bits of a pixel that color_bpp_map gives the format.
pub color_fmt_a2g-HasPlanes : (f : ℕ) → HasDepth f → HasPlanes (color_fmt_a2g f)
color_fmt_a2g-HasPlanes f h = elim (color_fmt_a2g-Found IsPlanar f table-IsPlanar) [
  | inl e ↦ absurd (h.listed e)
  | inr (c, inl has, key, e) ↦ rw e has
  | inr (c, inr (inl e'), key, e) ↦ absurd (h.not_p010 (e ∙ e'))
  | inr (c, inr (inr e'), key, e) ↦ absurd (h.not_unknown (e ∙ e'))
]
