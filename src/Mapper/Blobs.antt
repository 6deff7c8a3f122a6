-- ===== src/Mapper/Blobs.antt =====
-- The standard metadata of mapper_stablec/backend/MapperDmaBuf.cpp, and its operations that do
-- nothing.
use gralloc_gbm.Base.{◌==◌, if◌then◌else◌}
use gralloc_gbm.Machine.{Ptr, null, neg_einval, Action, pure, ◌>>=◌}
use gralloc_gbm.Gbm.Format
use gralloc_gbm.State.{Metadata}
use gralloc_gbm.Handle.{Handle}
use gralloc_gbm.Mapper.Standard.{
  StandardMetadataType, number, flag, handle_address, compression_none, interlaced_none,
  chroma_siting_none, error_unsupported, code, Answer, provided, refused,
}
use gralloc_gbm.Mapper.Metadata.{whole_crop}
use gralloc_gbm.Mapper.DmaBuf.{DmaInfo, DmaStatus, success, DmaState, read_info, find_info}

module _ {V : Type 0} where
  unfoldable pub flush_locked_buffer : Handle → Action (DmaState V) DmaStatus
  flush_locked_buffer h = pure success

  unfoldable pub reread_locked_buffer : Handle → Action (DmaState V) DmaStatus
  reread_locked_buffer h = pure success

  -- The setting of metadata, which is not supported and returns 0.
  unfoldable pub ignore_standard_metadata :
      Handle → StandardMetadataType → Metadata → Action (DmaState V) DmaStatus
  ignore_standard_metadata h k m = pure success

  -- An answer that reads the information.
  abbrev from_info : (DmaInfo → Answer) → Ptr → Action (DmaState V) Answer
  from_info f bi = do i ← read_info bi; pure (f i)

  -- The part of `queryAndroidBufferMetadata` behind the search.
  unfoldable pub blob_answer : StandardMetadataType → Ptr → Action (DmaState V) Answer
  blob_answer StandardMetadataType.buffer_id bi =
      from_info (λ i. provided (handle_address i.buffer_id)) bi
  blob_answer StandardMetadataType.width bi = from_info (λ i. provided (number i.width)) bi
  blob_answer StandardMetadataType.height bi = from_info (λ i. provided (number i.height)) bi
  blob_answer StandardMetadataType.layer_count bi = pure (provided (number 1))
  blob_answer StandardMetadataType.pixel_format_requested bi =
      from_info (λ i. provided (number i.format)) bi
  blob_answer StandardMetadataType.pixel_format_fourcc bi = pure (provided (number Format.r8))
  blob_answer StandardMetadataType.usage bi = from_info (λ i. provided (number i.usage)) bi
  blob_answer StandardMetadataType.allocation_size bi = from_info (λ i. provided (number i.size)) bi
  blob_answer StandardMetadataType.protected_content bi =
      from_info (λ i. provided (flag i.is_protected)) bi
  blob_answer StandardMetadataType.compression bi = pure (provided compression_none)
  blob_answer StandardMetadataType.interlaced bi = pure (provided interlaced_none)
  blob_answer StandardMetadataType.chroma_siting bi = pure (provided chroma_siting_none)
  blob_answer StandardMetadataType.crop bi = from_info (λ i. whole_crop i.width i.height) bi
  blob_answer StandardMetadataType.stride bi = from_info (λ i. provided (number i.stride)) bi
  blob_answer _ bi = pure (refused (code error_unsupported))

  unfoldable pub blob_query_metadata : Handle → StandardMetadataType → Action (DmaState V) Answer
  blob_query_metadata h k = do
    bi ← find_info h.prime_fd
    if bi == null then pure (refused neg_einval) else blob_answer k bi
