-- ===== src/Mapper/Front.antt =====
-- mapper_stablec/Mapper.cpp: the state of the mapper, the selection of a backend for each handle, and
-- the operations of a backend on that state.
pub mod Requests
pub mod Routing
pub mod Session
pub mod Standards
pub mod Unsupported
pub mod Results
pub mod Supported
use gralloc_gbm.Base.{ℕ, Bool, true, false, Option, none, some, ◌==◌, ◌&&◌, if◌then◌else◌}
use Prim.Native.String.{String}
use gralloc_gbm.Machine.{Ptr, is_ok, Action, carry, pure, ◌>>=◌, ◌>>◌, modify, gets}
use gralloc_gbm.Hal.Pixel
use gralloc_gbm.Flags.{Config}
use gralloc_gbm.Platform.{Platform}
use gralloc_gbm.State.{State, Metadata}
use gralloc_gbm.Handle.{Handle}
use gralloc_gbm.Mapper.Standard.{StandardMetadataType, Value, Answer}
use gralloc_gbm.Mapper.DmaBuf.{
  DmaStatus, success, DmaSystem, DmaState, mapper_dma_is_ready, mapper_dma_init, import_buffer,
  free_buffer, lock_buffer, unlock_buffer,
}
use gralloc_gbm.Mapper.Blobs.{
  flush_locked_buffer, reread_locked_buffer, ignore_standard_metadata, blob_query_metadata,
}
use gralloc_gbm.Mapper.Gbm.{
  gbm_is_ready, gbm_init, gbm_import_buffer, gbm_free_buffer, gbm_lock_buffer, gbm_unlock_buffer,
  gbm_flush_locked_buffer, gbm_reread_locked_buffer,
}
use gralloc_gbm.Mapper.Metadata.{set_standard_metadata, gbm_query_metadata}

-- `MapperBackendType`. The two backends are singletons whose state is global, so that the name of a
-- backend stands for the pointer to it.
pub data MapperBackendType : Type 0 where
  mapper_gralloc_gbm mapper_gralloc_dmabuf : MapperBackendType

-- `native_handle_t`: the numbers of its header, and what follows.
pub record NativeHandle : Type 0 where
  pub num_fds : ℕ
  pub num_ints : ℕ
  pub content : Handle

-- What libcutils and IMapperMetadataTypes.h do, and the system of the DMA-BUF backend.
pub record MapperSystem (W V : Type 0) : Type 0 where
  pub dma : DmaSystem V
  pub handle_clone : W → NativeHandle → Option NativeHandle × W
  pub handle_close : W → NativeHandle → W  -- native_handle_close and native_handle_delete
  pub is_standard_name : String → Bool  -- strcmp(STANDARD_METADATA_NAME, name) == 0
  pub provide : Value → (dest_size : ℕ) → ℕ  -- the result of `provide`, an `int32_t`
  pub provide_unlisted : ℕ  -- the result for a type that has no name

-- The state of the library, that of the DMA-BUF backend, and `mBackend`. The worlds of libgbm and of
-- libdmabufheap are apart.
pub record MapperState (W T V : Type 0) : Type 0 where
  pub library : State W T
  pub dma : DmaState V
  pub backend : Option MapperBackendType

-- The test in `selectBackend`.
unfoldable pub backend_of : Handle → MapperBackendType
backend_of h =
    if h.format == Pixel.blob && h.size.height == 1
    then mapper_gralloc_dmabuf
    else mapper_gralloc_gbm

abbrev pub is_success : DmaStatus → Bool
is_success success = true
is_success _ = false

module _ {W T V : Type 0} where
  -- A call of the library or of libgbm's side, and one of the DMA-BUF backend.
  abbrev pub in_library : {A : Type 0} → Action (State W T) A → Action (MapperState W T V) A
  in_library act s = carry (λ t. record s { library = t }) (act s.library)

  abbrev pub in_dma : {A : Type 0} → Action (DmaState V) A → Action (MapperState W T V) A
  in_dma act s = carry (λ t. record s { dma = t }) (act s.dma)

  unfoldable pub select_mapper_backend : Handle → Action (MapperState W T V) (Unit {0})
  select_mapper_backend h = modify λ s. record s { backend = some (backend_of h) }

module _ {W T V : Type 0} (p : Platform W T) (v : MapperSystem W V) where
  unfoldable pub is_mapper_ready : MapperBackendType → Action (MapperState W T V) Bool
  is_mapper_ready mapper_gralloc_gbm = in_library gbm_is_ready
  is_mapper_ready mapper_gralloc_dmabuf = in_dma (mapper_dma_is_ready v.dma)

  -- Whether the initialisation returns 0.
  unfoldable pub init_mapper : MapperBackendType → Action (MapperState W T V) Bool
  init_mapper mapper_gralloc_gbm = do r ← in_library (gbm_init p); pure (is_ok r)
  init_mapper mapper_gralloc_dmabuf = do r ← in_dma (mapper_dma_init v.dma); pure (is_success r)

  unfoldable pub check_current : Option MapperBackendType → Action (MapperState W T V) Bool
  check_current none = pure false
  check_current (some b) = do ready ← is_mapper_ready b; if ready then pure true else init_mapper b

  -- `selectBackend`, `CHECK_BACKEND` and a call of `mBackend`; `refused` is returned where the check
  -- ends the request.
  unfoldable pub on_backend :
      {A : Type 0}
      → Handle
      → (refused : A) → (MapperBackendType → Action (MapperState W T V) A)
      → Action (MapperState W T V) A
  on_backend h refused call = do
    select_mapper_backend h
    current ← gets λ s. s.backend
    usable ← check_current current
    if usable then elim current [ none ↦ pure refused | some b ↦ call b ] else pure refused

  -- The operations of the two backends, with whether they return 0.
  unfoldable pub backend_free : Handle → MapperBackendType → Action (MapperState W T V) Bool
  backend_free h mapper_gralloc_gbm = do r ← in_library (gbm_free_buffer p h); pure (is_ok r)
  backend_free h mapper_gralloc_dmabuf = do r ← in_dma (free_buffer h); pure (is_success r)

  unfoldable pub backend_lock :
      Handle → ℕ → MapperBackendType → Action (MapperState W T V) (Bool × Option Ptr)
  backend_lock h cpu_usage mapper_gralloc_gbm = do
    (r, out) ← in_library (gbm_lock_buffer p h cpu_usage)
    pure (is_ok r, out)
  backend_lock h cpu_usage mapper_gralloc_dmabuf = do
    (r, out) ← in_dma (lock_buffer v.dma h cpu_usage)
    pure (is_success r, out)

  unfoldable pub backend_unlock : Handle → MapperBackendType → Action (MapperState W T V) Bool
  backend_unlock h mapper_gralloc_gbm = do r ← in_library (gbm_unlock_buffer p h); pure (is_ok r)
  backend_unlock h mapper_gralloc_dmabuf = do
    r ← in_dma (unlock_buffer v.dma h)
    pure (is_success r)

  unfoldable pub backend_flush : Handle → MapperBackendType → Action (MapperState W T V) Bool
  backend_flush h mapper_gralloc_gbm = do r ← in_library (gbm_flush_locked_buffer h); pure (is_ok r)
  backend_flush h mapper_gralloc_dmabuf = do r ← in_dma (flush_locked_buffer h); pure (is_success r)

  unfoldable pub backend_reread : Handle → MapperBackendType → Action (MapperState W T V) Bool
  backend_reread h mapper_gralloc_gbm = do
    r ← in_library (gbm_reread_locked_buffer h)
    pure (is_ok r)
  backend_reread h mapper_gralloc_dmabuf = do
    r ← in_dma (reread_locked_buffer h)
    pure (is_success r)

  unfoldable pub backend_query :
      Handle → StandardMetadataType → MapperBackendType → Action (MapperState W T V) Answer
  backend_query h k mapper_gralloc_gbm = in_library (gbm_query_metadata p h k)
  backend_query h k mapper_gralloc_dmabuf = in_dma (blob_query_metadata h k)

  unfoldable pub backend_set :
      Handle → StandardMetadataType → Metadata → MapperBackendType → Action (MapperState W T V) Bool
  backend_set h k m mapper_gralloc_gbm = do
    r ← in_library (set_standard_metadata p h k m)
    pure (is_ok r)
  backend_set h k m mapper_gralloc_dmabuf = do
    r ← in_dma (ignore_standard_metadata h k m)
    pure (is_success r)

module _ {W T V : Type 0} (c : Config) (p : Platform W T) (v : MapperSystem W V) where
  unfoldable pub backend_import : Handle → MapperBackendType → Action (MapperState W T V) Bool
  backend_import h mapper_gralloc_gbm = do r ← in_library (gbm_import_buffer c p h); pure (is_ok r)
  backend_import h mapper_gralloc_dmabuf = do
    r ← in_dma (import_buffer v.dma h)
    pure (is_success r)
