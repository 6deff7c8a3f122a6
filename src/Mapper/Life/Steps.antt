-- ===== src/Mapper/Life/Steps.antt =====
-- Sequences of requests of mapper_stablec/Mapper.cpp, as a step relation on the state of the mapper.
use gralloc_gbm.Base.{ℕ, ◌≡◌, true, Option}
use gralloc_gbm.Machine.{Ptr, done}
use gralloc_gbm.Flags.{Config}
use gralloc_gbm.Platform.{Platform}
use gralloc_gbm.Mapper.Standard.{StandardMetadataType, Value, MapperError}
use gralloc_gbm.Mapper.Front.{NativeHandle, MapperSystem, MapperState}
use gralloc_gbm.Mapper.Front.Requests.{
  mapper_import_buffer, mapper_free_buffer, mapper_lock, mapper_unlock, mapper_flush, mapper_reread,
}
use gralloc_gbm.Mapper.Front.Standards.{
  MetadataType, NewMetadata, mapper_get_metadata, mapper_get_standard_metadata, mapper_set_metadata,
  mapper_set_standard_metadata,
}
use gralloc_gbm.Mapper.Life.Settings.{is_plain}

module _ {W T V : Type 0} (c : Config) (p : Platform W T) (v : MapperSystem W V) where
  -- A request from `s` that returns in `t`. The metadata that are set are not HDR ones.
  pub data Request : MapperState W T V → MapperState W T V → Type 0 where
    importing :
        {s t : MapperState W T V} (n : Option NativeHandle) (r : MapperError × Option NativeHandle)
        → mapper_import_buffer c p v n s ≡ done (r, t)
        → Request s t
    freeing :
        {s t : MapperState W T V} (n : Option NativeHandle) (r : MapperError)
        → mapper_free_buffer p v n s ≡ done (r, t)
        → Request s t
    locking :
        {s t : MapperState W T V} (n : Option NativeHandle) (usage : ℕ)
        (r : MapperError × Option Ptr)
        → mapper_lock p v n usage s ≡ done (r, t)
        → Request s t
    unlocking :
        {s t : MapperState W T V} (n : Option NativeHandle) (r : MapperError)
        → mapper_unlock p v n s ≡ done (r, t)
        → Request s t
    flushing :
        {s t : MapperState W T V} (n : Option NativeHandle) (r : MapperError)
        → mapper_flush p v n s ≡ done (r, t)
        → Request s t
    rereading :
        {s t : MapperState W T V} (n : Option NativeHandle) (r : MapperError)
        → mapper_reread p v n s ≡ done (r, t)
        → Request s t
    getting :
        {s t : MapperState W T V} (n : Option NativeHandle) (k : StandardMetadataType)
        (dest_size : ℕ) (r : ℕ × Option Value)
        → mapper_get_standard_metadata p v n k dest_size s ≡ done (r, t)
        → Request s t
    getting_named :
        {s t : MapperState W T V} (n : Option NativeHandle) (m : MetadataType) (dest_size : ℕ)
        (r : ℕ × Option Value)
        → mapper_get_metadata p v n m dest_size s ≡ done (r, t)
        → Request s t
    setting :
        {s t : MapperState W T V} (n : Option NativeHandle) (k : StandardMetadataType)
        (new : NewMetadata) (r : MapperError)
        → mapper_set_standard_metadata p v n k new s ≡ done (r, t)
        → is_plain k ≡ true
        → Request s t
    setting_named :
        {s t : MapperState W T V} (n : Option NativeHandle) (m : MetadataType) (new : NewMetadata)
        (r : MapperError)
        → mapper_set_metadata p v n m new s ≡ done (r, t)
        → is_plain m.value ≡ true
        → Request s t

  -- Any number of requests.
  pub data Requests : MapperState W T V → MapperState W T V → Type 0 where
    here : {s : MapperState W T V} → Requests s s
    after : {s t u : MapperState W T V} → Requests s t → Request t u → Requests s u
