-- ===== src/Planes/Table.antt =====
-- GetPlaneLayoutsMap of mapper_stablec/MapperPlaneLayouts.hpp: the planes of each GBM format.
use gralloc_gbm.Base.{List, [], ◌∷◌, ◌++◌}
use gralloc_gbm.Gbm.Format
use gralloc_gbm.Format.{color_bpp}
use gralloc_gbm.Planes.{r, g, b, a, y, cb, cr, FormatLayouts, component, plane, planes}

unfoldable pub first_layouts : List FormatLayouts
first_layouts =
    planes Format.abgr8888 (
      plane (component r 0 8 ∷ component g 8 8 ∷ component b 16 8 ∷ component a 24 8 ∷ [])
        (color_bpp Format.abgr8888) 1 1
      ∷ [])
    ∷ planes Format.xbgr8888 (
        plane (component r 0 8 ∷ component g 8 8 ∷ component b 16 8 ∷ [])
          (color_bpp Format.xbgr8888) 1 1
        ∷ [])
    ∷ planes Format.argb8888 (
        plane (component b 0 8 ∷ component g 8 8 ∷ component r 16 8 ∷ component a 24 8 ∷ [])
          (color_bpp Format.argb8888) 1 1
        ∷ [])
    ∷ planes Format.bgr888 (
        plane (component r 0 8 ∷ component g 8 8 ∷ component b 16 8 ∷ []) (color_bpp Format.bgr888)
          1 1
        ∷ [])
    ∷ planes Format.bgr565 (
        plane (component r 0 5 ∷ component g 5 6 ∷ component b 11 5 ∷ []) (color_bpp Format.bgr565)
          1 1
        ∷ [])
    ∷ []

unfoldable pub second_layouts : List FormatLayouts
second_layouts =
    planes Format.yuv422 (
      plane (component y 0 8 ∷ []) 8 1 1
      ∷ plane (component cb 0 8 ∷ []) 8 2 1
      ∷ plane (component cr 0 8 ∷ []) 8 2 1
      ∷ [])
    ∷ planes Format.yvu420 (
        plane (component y 0 8 ∷ []) 8 1 1
        ∷ plane (component cr 0 8 ∷ []) 8 2 2
        ∷ plane (component cb 0 8 ∷ []) 8 2 2
        ∷ [])
    ∷ planes Format.vyuy (
        plane (component cr 0 8 ∷ component y 8 8 ∷ component cb 16 8 ∷ component y 24 8 ∷ [])
          (color_bpp Format.vyuy) 1 1
        ∷ [])
    ∷ []

unfoldable pub third_layouts : List FormatLayouts
third_layouts =
    planes Format.yuv420 (
      plane (component y 0 8 ∷ []) 8 1 1
      ∷ plane (component cb 0 8 ∷ []) 8 2 2
      ∷ plane (component cr 0 8 ∷ []) 8 2 2
      ∷ [])
    ∷ planes Format.abgr2101010 (
        plane (component r 0 10 ∷ component g 10 10 ∷ component b 20 10 ∷ component a 30 2 ∷ [])
          (color_bpp Format.abgr2101010) 1 1
        ∷ [])
    ∷ planes Format.r8 (plane (component r 0 8 ∷ []) (color_bpp Format.r8) 1 1 ∷ [])
    ∷ planes Format.r16 (plane (component r 0 16 ∷ []) (color_bpp Format.r16) 1 1 ∷ [])
    ∷ planes Format.gr88
        (plane (component r 0 8 ∷ component g 8 8 ∷ []) (color_bpp Format.gr88) 1 1 ∷ [])
    ∷ planes Format.abgr16161616f (
        plane (component r 0 16 ∷ component g 16 16 ∷ component b 32 16 ∷ component a 48 16 ∷ [])
          (color_bpp Format.abgr16161616f) 1 1
        ∷ [])
    ∷ []

unfoldable pub additional_layouts : List FormatLayouts
additional_layouts =
    planes Format.rgb565 (
      plane (component b 0 5 ∷ component g 5 6 ∷ component r 11 5 ∷ []) (color_bpp Format.rgb565) 1
        1
      ∷ [])
    ∷ planes Format.nv12 (
        plane (component y 0 8 ∷ []) 8 1 1
        ∷ plane (component cb 0 8 ∷ component cr 8 8 ∷ []) 16 2 2
        ∷ [])
    ∷ planes Format.nv21 (
        plane (component y 0 8 ∷ []) 8 1 1
        ∷ plane (component cr 0 8 ∷ component cb 8 8 ∷ []) 16 2 2
        ∷ [])
    ∷ planes Format.rgbx8888 (
        plane (component b 16 8 ∷ component g 8 8 ∷ component r 0 8 ∷ [])
          (color_bpp Format.rgbx8888) 1 1
        ∷ [])
    ∷ planes Format.xrgb8888 (
        plane (component b 16 8 ∷ component g 8 8 ∷ component r 0 8 ∷ [])
          (color_bpp Format.xrgb8888) 1 1
        ∷ [])
    ∷ []

unfoldable pub plane_layouts_map : List FormatLayouts
unfolding first_layouts second_layouts third_layouts additional_layouts
plane_layouts_map = first_layouts ++ (second_layouts ++ (third_layouts ++ additional_layouts))
