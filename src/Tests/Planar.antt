-- ===== src/Tests/Planar.antt =====
-- The theorems on plane layouts, at concrete formats.
use gralloc_gbm.Base.{◌≡◌, refl, true, some, List, [], ◌∷◌, all, arith}
use gralloc_gbm.Hal.Pixel
use gralloc_gbm.Gbm.Format
use gralloc_gbm.Format.{color_fmt_a2g, color_format_map, color_bpp, color_bpp_map}
use gralloc_gbm.Format.Depth.{HasDepth}
use gralloc_gbm.Planes.{y, cb, cr, PlaneLayout, component, plane}
use gralloc_gbm.Planes.Table.{plane_layouts_map}
use gralloc_gbm.Planes.Lookup.{get_plane_layouts}
use gralloc_gbm.Planes.Fit.{fits, HasPlanes, get_plane_layouts-fits, color_fmt_a2g-HasPlanes}

abbrev nv12_planes : List PlaneLayout
nv12_planes =
    plane (component y 0 8 ∷ []) 8 1 1
    ∷ plane (component cb 0 8 ∷ component cr 8 8 ∷ []) 16 2 2
    ∷ []

found : get_plane_layouts Format.nv12 ≡ some nv12_planes
unfolding get_plane_layouts plane_layouts_map color_bpp color_bpp_map
found = refl

get_plane_layouts-fits_example : all fits nv12_planes ≡ true
get_plane_layouts-fits_example = get_plane_layouts-fits Format.nv12 nv12_planes found

yv12-HasDepth : HasDepth Pixel.yv12
unfolding color_fmt_a2g color_format_map
yv12-HasDepth = record {
  listed = λ e. omega arith;
  not_p010 = λ e. omega arith;
  not_unknown = λ e. omega arith;
}

color_fmt_a2g-HasPlanes_example : HasPlanes (color_fmt_a2g Pixel.yv12)
color_fmt_a2g-HasPlanes_example = color_fmt_a2g-HasPlanes Pixel.yv12 yv12-HasDepth
