-- ===== src/Mapper/Standard.antt =====
-- The standard metadata of the mapper (mapper_stablec/): the types, the values that a query provides,
-- and the errors of a request.
use Prim.Native.String.{String}
use gralloc_gbm.Base.{ℕ, Bool, Option, List}
use gralloc_gbm.Machine.{Ptr}
use gralloc_gbm.Handle.{Handle}
use gralloc_gbm.Planes.{PlaneLayout}

-- `StandardMetadataType`; `unlisted` stands for a number that it does not name.
pub data StandardMetadataType : Type 0 where
  buffer_id name width height layer_count : StandardMetadataType
  pixel_format_requested pixel_format_fourcc pixel_format_modifier : StandardMetadataType
  usage allocation_size protected_content : StandardMetadataType
  compression interlaced chroma_siting plane_layouts crop : StandardMetadataType
  dataspace blend_mode smpte2086 cta861_3 : StandardMetadataType
  smpte2094_40 smpte2094_10 stride smpte2094_50 unlisted : StandardMetadataType

pub record Rect : Type 0 where
  pub left : ℕ
  pub top : ℕ
  pub right : ℕ
  pub bottom : ℕ

-- A `PlaneLayout` whose sizes are filled in; they are 64-bit patterns.
pub record SizedLayout : Type 0 where
  pub layout : PlaneLayout
  pub offset_in_bytes : ℕ
  pub stride_in_bytes : ℕ
  pub total_size_in_bytes : ℕ
  pub width_in_samples : ℕ
  pub height_in_samples : ℕ

-- What is handed to `provide`. A payload is its block and its size, none for an empty optional.
pub data Value : Type 0 where
  number : ℕ → Value
  flag : Bool → Value
  handle_address : Handle → Value
  text : String → Value
  compression_none interlaced_none chroma_siting_none : Value
  sized_layouts : List SizedLayout → Value
  crops : List Rect → Value
  payload : Option (Ptr × ℕ) → Value

-- `AIMapper_Error` of android/hardware/graphics/mapper/IMapper.h, as far as the code names it, and its
-- numbers.
pub data MapperError : Type 0 where
  error_none error_bad_buffer error_bad_value error_no_resources error_unsupported : MapperError

abbrev pub code : MapperError → ℕ
code error_none = 0
code error_bad_buffer = 2
code error_bad_value = 3
code error_no_resources = 5
code error_unsupported = 7

-- The answer of a query: a value for `provide`, or an `int32_t` that is returned at once.
pub data Answer : Type 0 where
  provided : Value → Answer
  refused : ℕ → Answer
