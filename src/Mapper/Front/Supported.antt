-- ===== src/Mapper/Front/Supported.antt =====
-- mapper_stablec/Mapper.cpp: the list of the metadata types that are supported.
use gralloc_gbm.Base.{ℕ, Bool, true, false, List, [], ◌∷◌}
use gralloc_gbm.Mapper.Standard.{StandardMetadataType, MapperError, error_none}

-- `AIMapper_MetadataTypeDescription` of a standard type.
pub record Description : Type 0 where
  pub type : StandardMetadataType
  pub is_gettable : Bool
  pub is_settable : Bool

abbrev pub new_standard_metadata : StandardMetadataType → Bool → Bool → Description
new_standard_metadata k gettable settable = record {
  type = k;
  is_gettable = gettable;
  is_settable = settable;
}

-- `sSupportedMetadataTypes`.
unfoldable pub supported_metadata_types : List Description
supported_metadata_types =
    new_standard_metadata StandardMetadataType.buffer_id true false
    ∷ new_standard_metadata StandardMetadataType.name false false
    ∷ new_standard_metadata StandardMetadataType.width true false
    ∷ new_standard_metadata StandardMetadataType.height true false
    ∷ new_standard_metadata StandardMetadataType.layer_count true false
    ∷ new_standard_metadata StandardMetadataType.pixel_format_requested true false
    ∷ new_standard_metadata StandardMetadataType.pixel_format_fourcc true false
    ∷ new_standard_metadata StandardMetadataType.pixel_format_modifier true false
    ∷ new_standard_metadata StandardMetadataType.usage true false
    ∷ new_standard_metadata StandardMetadataType.allocation_size true false
    ∷ new_standard_metadata StandardMetadataType.protected_content false false
    ∷ new_standard_metadata StandardMetadataType.stride true false
    ∷ new_standard_metadata StandardMetadataType.compression true false
    ∷ new_standard_metadata StandardMetadataType.interlaced true false
    ∷ new_standard_metadata StandardMetadataType.chroma_siting true false
    ∷ new_standard_metadata StandardMetadataType.plane_layouts true false
    ∷ new_standard_metadata StandardMetadataType.crop true false
    ∷ new_standard_metadata StandardMetadataType.dataspace true true
    ∷ new_standard_metadata StandardMetadataType.blend_mode true true
    ∷ new_standard_metadata StandardMetadataType.smpte2086 true true
    ∷ new_standard_metadata StandardMetadataType.cta861_3 true true
    ∷ new_standard_metadata StandardMetadataType.smpte2094_50 true true
    ∷ []

-- The list and its length.
unfoldable pub list_supported_metadata_types : MapperError × List Description × ℕ
list_supported_metadata_types = (error_none, supported_metadata_types, 22)
