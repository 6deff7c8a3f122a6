-- ===== src/Planes/Lookup.antt =====
-- getPlaneLayouts of mapper_stablec/MapperPlaneLayouts.hpp.
use gralloc_gbm.Base.{ℕ, List, [], ◌∷◌, Option, none, some, ◌==◌, if◌then◌else◌}
use gralloc_gbm.Planes.{PlaneLayout, FormatLayouts}
use gralloc_gbm.Planes.Table.{plane_layouts_map}

-- `find` in the table; its formats differ.
unfoldable pub find_layouts : ℕ → List FormatLayouts → Option (List PlaneLayout)
find_layouts f [] = none
find_layouts f (e ∷ es) = if e.gbm_format == f then some e.layouts else find_layouts f es

-- The planes of a format, none for `-EINVAL`.
unfoldable pub get_plane_layouts : ℕ → Option (List PlaneLayout)
unfolding find_layouts
get_plane_layouts f = find_layouts f plane_layouts_map
