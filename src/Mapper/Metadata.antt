-- ===== src/Mapper/Metadata.antt =====
-- setStandardMetadata and the answers of getStandardMetadata of
-- mapper_stablec/backend/MapperGrallocGbm.cpp.
use gralloc_gbm.Base.{
  Option, ℕ, ◌*◌, ◌%◌, ◌^◌, Bool, true, false, none, some, [], ◌∷◌, map, ◌==◌, if◌then◌else◌,
}
use gralloc_gbm.Machine.{
  Ptr, null, empty_optional, Status, ok, einval, Action, pure, stop, ◌>>=◌, ◌>>◌,
}
use gralloc_gbm.Word.{u32, less_signed, sign_extend, div_signed}
use gralloc_gbm.Format.{color_bytes_per_pixel}
use gralloc_gbm.Platform.{Platform}
use gralloc_gbm.State.{State, Metadata, load, store, read_block}
use gralloc_gbm.Handle.{Handle}
use gralloc_gbm.Buffer.{
  BufferInfo, gralloc_gbm_android_buffer_query, gralloc_gbm_android_buffer_get_extdata,
}
use gralloc_gbm.Planes.{PlaneLayout}
use gralloc_gbm.Planes.Lookup.{get_plane_layouts}
use gralloc_gbm.Mapper.Standard.{
  StandardMetadataType, dataspace, blend_mode, smpte2086, cta861_3, smpte2094_50, SizedLayout,
  number, flag, text, compression_none, interlaced_none, chroma_siting_none, sized_layouts, crops,
  payload, error_no_resources, error_unsupported, code, Answer, provided, refused,
}

-- What each case of the switch writes; `m` are the new metadata, `old` those of the buffer.
unfoldable pub written_metadata : StandardMetadataType → Metadata → Metadata → Metadata
written_metadata dataspace m old = record old { dataspace = m.dataspace }
written_metadata blend_mode m old = record old { blend_mode = m.blend_mode }
written_metadata smpte2086 m old = record old { smpte2086 = m.smpte2086 }
written_metadata cta861_3 m old = record old { cta861_3 = m.cta861_3 }
written_metadata smpte2094_50 m old = record old {
  smpte2094_50 = m.smpte2094_50;
  smpte2094_50_size = m.smpte2094_50_size;
}
written_metadata _ m old = old

-- Whether no case writes anything.
abbrev pub writes_nothing : StandardMetadataType → Bool
writes_nothing dataspace = false
writes_nothing blend_mode = false
writes_nothing smpte2086 = false
writes_nothing cta861_3 = false
writes_nothing smpte2094_50 = false
writes_nothing _ = true

module _ {W T : Type 0} (p : Platform W T) where
  unfoldable pub set_standard_metadata :
      Handle → StandardMetadataType → Metadata → Action (State W T) Status
  set_standard_metadata h k m = do
    d ← gralloc_gbm_android_buffer_get_extdata p h
    if d == null then pure einval else if writes_nothing k then pure ok else do
      x ← load d
      store d (record x { metadata = written_metadata k m x.metadata })
      pure ok

-- The layout of one plane. The product of the stride and the number of bytes a pixel is one of
-- `int`, taken to wrap around; the others are of 64 bits.
unfoldable pub sized_layout : BufferInfo → PlaneLayout → SizedLayout
sized_layout i l =
    let row = sign_extend (u32 (i.stride * color_bytes_per_pixel i.gbm_format)) in
    record {
      layout = l;
      offset_in_bytes = 0;
      stride_in_bytes = row;
      total_size_in_bytes = row * sign_extend i.height % 2 ^ 64;
      width_in_samples = sign_extend (div_signed i.width l.horizontal_subsampling);
      height_in_samples = sign_extend (div_signed i.height l.vertical_subsampling);
    }

-- The answer for PLANE_LAYOUTS.
unfoldable pub layouts_answer : BufferInfo → Answer
layouts_answer i = elim (get_plane_layouts i.gbm_format) [
  | none ↦ refused (code error_unsupported)
  | some ls ↦ provided (sized_layouts (map (sized_layout i) ls))
]

-- The answer for CROP, of both backends.
abbrev pub whole_crop : (width height : ℕ) → Answer
whole_crop width height =
    provided (crops (record { left = 0; top = 0; right = width; bottom = height } ∷ []))

module _ {W T : Type 0} where
  -- `hdr->…` of a `std::optional`, which has no member if it is empty.
  unfoldable pub member : {A : Type 0} → Option A → Action (State W T) A
  member none = stop empty_optional
  member (some a) = pure a

  -- The answer for SMPTE2086 and CTA861_3. The optional that the members are assigned to was given no
  -- value, and the first of them is the first source of a value behind the pointer `q`.
  unfoldable pub hdr_answer : Ptr → Action (State W T) Answer
  hdr_answer q = do read_block q; hdr ← member none; pure (provided hdr)

  -- The answer for SMPTE2094_50, whose payload is read only if its size is positive.
  unfoldable pub payload_answer : Metadata → Action (State W T) Answer
  payload_answer m =
      if less_signed 0 m.smpte2094_50_size
      then (do
        read_block m.smpte2094_50
        pure (provided (payload (some (m.smpte2094_50, m.smpte2094_50_size)))))
      else pure (provided (payload none))

  -- `grallocGbmQueryAndroidBufferMetadata` behind the query. The buffer's name is never set, and the
  -- blend mode is answered with the dataspace, as in the source.
  unfoldable pub gbm_answer : StandardMetadataType → BufferInfo → Action (State W T) Answer
  gbm_answer StandardMetadataType.buffer_id i = pure (provided (number i.buffer_id))
  gbm_answer StandardMetadataType.name i = pure (provided (text "<unknown name>"))
  gbm_answer StandardMetadataType.width i = pure (provided (number i.width))
  gbm_answer StandardMetadataType.height i = pure (provided (number i.height))
  gbm_answer StandardMetadataType.layer_count i = pure (provided (number i.layer_count))
  gbm_answer StandardMetadataType.pixel_format_requested i =
      pure (provided (number i.android_format))
  gbm_answer StandardMetadataType.pixel_format_fourcc i = pure (provided (number i.gbm_format))
  gbm_answer StandardMetadataType.pixel_format_modifier i = pure (provided (number i.modifier))
  gbm_answer StandardMetadataType.usage i = pure (provided (number (sign_extend i.usage)))
  gbm_answer StandardMetadataType.allocation_size i = pure (provided (number i.size))
  gbm_answer StandardMetadataType.protected_content i = pure (provided (flag i.is_protected))
  gbm_answer StandardMetadataType.compression i = pure (provided compression_none)
  gbm_answer StandardMetadataType.interlaced i = pure (provided interlaced_none)
  gbm_answer StandardMetadataType.chroma_siting i = pure (provided chroma_siting_none)
  gbm_answer StandardMetadataType.plane_layouts i = pure (layouts_answer i)
  gbm_answer StandardMetadataType.crop i = pure (whole_crop i.width i.height)
  gbm_answer StandardMetadataType.dataspace i = pure (provided (number i.metadata.dataspace))
  gbm_answer StandardMetadataType.blend_mode i = pure (provided (number i.metadata.dataspace))
  gbm_answer StandardMetadataType.smpte2086 i = hdr_answer i.metadata.smpte2086
  gbm_answer StandardMetadataType.cta861_3 i = hdr_answer i.metadata.cta861_3
  gbm_answer StandardMetadataType.smpte2094_40 i = pure (refused (code error_unsupported))
  gbm_answer StandardMetadataType.smpte2094_10 i = pure (refused (code error_unsupported))
  gbm_answer StandardMetadataType.stride i = pure (provided (number i.stride))
  gbm_answer StandardMetadataType.smpte2094_50 i = payload_answer i.metadata
  gbm_answer StandardMetadataType.unlisted i = pure (refused (code error_unsupported))

module _ {W T : Type 0} (p : Platform W T) where
  unfoldable pub gbm_query_metadata : Handle → StandardMetadataType → Action (State W T) Answer
  gbm_query_metadata h k = do
    (status, info) ← gralloc_gbm_android_buffer_query p h
    elim info [ none ↦ pure (refused (code error_no_resources)) | some i ↦ gbm_answer k i ]
