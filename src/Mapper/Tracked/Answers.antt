-- ===== src/Mapper/Tracked/Answers.antt =====
-- The metadata of mapper_stablec/backend/MapperDmaBuf.cpp for information that is live.
use gralloc_gbm.Base.{◌≡◌, refl}
use gralloc_gbm.Machine.{Ptr, Outcome, done, pure, ◌>>=◌}
use gralloc_gbm.Mapper.Standard.{StandardMetadataType, Answer}
use gralloc_gbm.Mapper.DmaBuf.{DmaInfo, DmaState, read_info}
use gralloc_gbm.Mapper.Blobs.{blob_answer}

module _ {V : Type 0} (s : DmaState V) (bi : Ptr) (i : DmaInfo)
    (live : read_info bi s ≡ done (i, s)) where
  -- The run answers and leaves the state as it is.
  abbrev pub Answers : Outcome (Answer × DmaState V) → Type 0
  Answers o = (r : Answer) × (o ≡ done (r, s))

  reads : (f : DmaInfo → Answer) → Answers ((read_info bi >>= λ j. pure (f j)) s)
  reads f = (f i, rw live refl)

  pub blob_answer-Answers : (k : StandardMetadataType) → Answers (blob_answer k bi s)
  unfolding blob_answer
  blob_answer-Answers StandardMetadataType.buffer_id = reads _
  blob_answer-Answers StandardMetadataType.name = (_, refl)
  blob_answer-Answers StandardMetadataType.width = reads _
  blob_answer-Answers StandardMetadataType.height = reads _
  blob_answer-Answers StandardMetadataType.layer_count = (_, refl)
  blob_answer-Answers StandardMetadataType.pixel_format_requested = reads _
  blob_answer-Answers StandardMetadataType.pixel_format_fourcc = (_, refl)
  blob_answer-Answers StandardMetadataType.pixel_format_modifier = (_, refl)
  blob_answer-Answers StandardMetadataType.usage = reads _
  blob_answer-Answers StandardMetadataType.allocation_size = reads _
  blob_answer-Answers StandardMetadataType.protected_content = reads _
  blob_answer-Answers StandardMetadataType.compression = (_, refl)
  blob_answer-Answers StandardMetadataType.interlaced = (_, refl)
  blob_answer-Answers StandardMetadataType.chroma_siting = (_, refl)
  blob_answer-Answers StandardMetadataType.plane_layouts = (_, refl)
  blob_answer-Answers StandardMetadataType.crop = reads _
  blob_answer-Answers StandardMetadataType.dataspace = (_, refl)
  blob_answer-Answers StandardMetadataType.blend_mode = (_, refl)
  blob_answer-Answers StandardMetadataType.smpte2086 = (_, refl)
  blob_answer-Answers StandardMetadataType.cta861_3 = (_, refl)
  blob_answer-Answers StandardMetadataType.smpte2094_40 = (_, refl)
  blob_answer-Answers StandardMetadataType.smpte2094_10 = (_, refl)
  blob_answer-Answers StandardMetadataType.stride = reads _
  blob_answer-Answers StandardMetadataType.smpte2094_50 = (_, refl)
  blob_answer-Answers StandardMetadataType.unlisted = (_, refl)
