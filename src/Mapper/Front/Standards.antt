-- ===== src/Mapper/Front/Standards.antt =====
-- mapper_stablec/Mapper.cpp: getMetadata and setMetadata, and the standard types with their
-- switch.
use gralloc_gbm.Base.{ℕ, ◌*◌, Bool, true, false, Option, none, some, ◌==◌, ltb, if◌then◌else◌}
use Prim.Native.String.{String}
use gralloc_gbm.Machine.{Ptr, null, assertion_failed, Action, pure, stop, ◌>>=◌}
use gralloc_gbm.Word.{is_negative}
use gralloc_gbm.Platform.{Platform}
use gralloc_gbm.State.{State, Metadata, empty_metadata, calloc}
use gralloc_gbm.Mapper.Standard.{
  StandardMetadataType, Value, MapperError, error_bad_buffer, error_bad_value, error_no_resources,
  error_unsupported, code, Answer, provided, refused,
}
use gralloc_gbm.Mapper.Front.{
  MapperBackendType, NativeHandle, MapperSystem, MapperState, in_library, on_backend, backend_query,
  backend_set,
}
use gralloc_gbm.Mapper.Front.Requests.{mapper_result}

-- `AIMapper_MetadataType`.
pub record MetadataType : Type 0 where
  pub name : String
  pub value : StandardMetadataType

-- What `metadata` points to: the number of a dataspace or of a blend mode, and the size. The
-- contents of HDR metadata are not modelled.
pub record NewMetadata : Type 0 where
  pub number : ℕ
  pub size : ℕ

-- `GRALLOC_GENERIC_SMPTE2094_50_MAX_SIZE`.
abbrev pub payload_max : ℕ
payload_max = 1024 * 10

-- The types that the switch of `setStandardMetadata` calls read-only.
abbrev pub is_read_only : StandardMetadataType → Bool
is_read_only StandardMetadataType.buffer_id = true
is_read_only StandardMetadataType.name = true
is_read_only StandardMetadataType.width = true
is_read_only StandardMetadataType.height = true
is_read_only StandardMetadataType.layer_count = true
is_read_only StandardMetadataType.pixel_format_requested = true
is_read_only StandardMetadataType.pixel_format_fourcc = true
is_read_only StandardMetadataType.pixel_format_modifier = true
is_read_only StandardMetadataType.usage = true
is_read_only StandardMetadataType.stride = true
is_read_only _ = false

module _ {W T : Type 0} (p : Platform W T) where
  -- `calloc` and the `assert` behind it.
  unfoldable pub asserted_calloc : Action (State W T) Ptr
  asserted_calloc = do q ← calloc p; if q == null then stop assertion_failed else pure q

  -- What the switch puts into the zeroed `data`.
  unfoldable pub filled_metadata : StandardMetadataType → NewMetadata → Action (State W T) Metadata
  filled_metadata StandardMetadataType.dataspace n =
      pure (record empty_metadata { dataspace = n.number })
  filled_metadata StandardMetadataType.blend_mode n =
      pure (record empty_metadata { blend_mode = n.number })
  filled_metadata StandardMetadataType.smpte2086 n = do
    q ← asserted_calloc
    pure (record empty_metadata { smpte2086 = q })
  filled_metadata StandardMetadataType.cta861_3 n = do
    q ← asserted_calloc
    pure (record empty_metadata { cta861_3 = q })
  filled_metadata StandardMetadataType.smpte2094_50 n = do
    q ← asserted_calloc
    pure (record empty_metadata { smpte2094_50 = q; smpte2094_50_size = n.size })
  filled_metadata _ n = pure empty_metadata

-- Whether the switch ends the request: a read-only type, or a payload that is too large.
unfoldable pub is_bad_value : StandardMetadataType → NewMetadata → Bool
is_bad_value StandardMetadataType.smpte2094_50 n = ltb payload_max n.size
is_bad_value k n = is_read_only k

module _ {W T V : Type 0} (p : Platform W T) (v : MapperSystem W V) where
  -- The part of `setStandardMetadata` behind `CHECK_BACKEND`. The block of `data` is never freed.
  unfoldable pub set_on :
      NativeHandle
      → StandardMetadataType
      → NewMetadata
      → MapperBackendType
      → Action (MapperState W T V) MapperError
  set_on n k new b = do
    data_block ← in_library (calloc p)
    if data_block == null
        then pure error_no_resources
        else if is_bad_value k new
        then pure error_bad_value
        else do
          m ← in_library (filled_metadata p k new)
          stored ← backend_set p v n.content k m b
          pure (mapper_result stored)

  unfoldable pub mapper_set_standard_metadata :
      Option NativeHandle
      → StandardMetadataType
      → NewMetadata
      → Action (MapperState W T V) MapperError
  mapper_set_standard_metadata none k new = pure error_bad_buffer
  mapper_set_standard_metadata (some n) k new =
      on_backend p v n.content error_no_resources (set_on n k new)

  unfoldable pub mapper_set_metadata :
      Option NativeHandle → MetadataType → NewMetadata → Action (MapperState W T V) MapperError
  mapper_set_metadata none t new = pure error_bad_buffer
  mapper_set_metadata (some n) t new =
      if v.is_standard_name t.name
      then mapper_set_standard_metadata (some n) t.value new
      else pure error_unsupported

  -- `provideStandardMetadata`: the result, and the value that is written to the destination.
  unfoldable pub provide_standard_metadata :
      StandardMetadataType
      → (dest_size : ℕ) → Action (MapperState W T V) Answer
      → Action (MapperState W T V) (ℕ × Option Value)
  provide_standard_metadata StandardMetadataType.unlisted dest_size query =
      pure (v.provide_unlisted, none)
  provide_standard_metadata k dest_size query = do
    a ← query
    pure (elim a [ provided x ↦ (v.provide x dest_size, some x) | refused e ↦ (e, none) ])

  -- The result is the bit pattern of an `int32_t`.
  unfoldable pub mapper_get_standard_metadata :
      Option NativeHandle
      → StandardMetadataType
      → (dest_size : ℕ) → Action (MapperState W T V) (ℕ × Option Value)
  mapper_get_standard_metadata none k dest_size = pure (code error_bad_buffer, none)
  mapper_get_standard_metadata (some n) k dest_size =
      on_backend p v n.content (code error_no_resources, none)
        λ b. do
          (result, x) ← provide_standard_metadata k dest_size (backend_query p v n.content k b)
          pure ((if is_negative result then code error_no_resources else result), x)

  unfoldable pub mapper_get_metadata :
      Option NativeHandle
      → MetadataType
      → (dest_size : ℕ) → Action (MapperState W T V) (ℕ × Option Value)
  mapper_get_metadata none t dest_size = pure (code error_bad_buffer, none)
  mapper_get_metadata (some n) t dest_size =
      if v.is_standard_name t.name
      then mapper_get_standard_metadata (some n) t.value dest_size
      else pure (code error_unsupported, none)
