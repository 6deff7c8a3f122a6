-- ===== src/Planes.antt =====
-- mapper_stablec/MapperPlaneLayouts.hpp: how the planes of a format are laid out.
pub mod Table
pub mod Lookup
pub mod Fit
use gralloc_gbm.Base.{ℕ, List, Option}

-- The `PlaneLayoutComponentType_*` that the table names.
pub data ComponentKind : Type 0 where
  r g b a y cb cr : ComponentKind

-- `PlaneLayoutComponent`.
pub record Component : Type 0 where
  pub kind : ComponentKind
  pub offset_in_bits : ℕ
  pub size_in_bits : ℕ

-- `PlaneLayout`, of which the table sets these fields.
pub record PlaneLayout : Type 0 where
  pub components : List Component
  pub sample_increment_in_bits : ℕ
  pub horizontal_subsampling : ℕ
  pub vertical_subsampling : ℕ

-- An entry of the table.
pub record FormatLayouts : Type 0 where
  pub gbm_format : ℕ
  pub layouts : List PlaneLayout

abbrev pub component : ComponentKind → ℕ → ℕ → Component
component k offset size = record { kind = k; offset_in_bits = offset; size_in_bits = size }

abbrev pub plane : List Component → ℕ → ℕ → ℕ → PlaneLayout
plane cs increment horizontal vertical = record {
  components = cs;
  sample_increment_in_bits = increment;
  horizontal_subsampling = horizontal;
  vertical_subsampling = vertical;
}

abbrev pub planes : ℕ → List PlaneLayout → FormatLayouts
planes format ls = record { gbm_format = format; layouts = ls }
