-- ===== src/Allocator/Service.antt =====
-- allocator/Allocator.cpp: the service, which selects a backend for each request.
pub mod Selection
use gralloc_gbm.Base.{ℕ, Bool, true, false, not, Option, none, some, List, [], ◌∷◌, if◌then◌else◌}
use Prim.Native.String.{String}
use gralloc_gbm.Machine.{
  Status, ok, einval, is_ok, Outcome, done, Action, pure, ◌>>=◌, ◌>>◌, modify, gets,
}
use gralloc_gbm.Flags.{Config}
use gralloc_gbm.Platform.{Platform}
use gralloc_gbm.Driver.{is_gralloc_gbm_ready, gralloc_gbm_init}
use gralloc_gbm.Allocator.{
  BinderStatus, status_ok, service_error, bad_descriptor, no_resources, Info, Allocation, Backend,
  gbm, dma_buf, Services, ServiceState, library_call,
}
use gralloc_gbm.Allocator.Gbm.{gbm_allocate2, gbm_is_supported}
use gralloc_gbm.Allocator.DmaBuf.{dma_is_ready, dma_init, dma_allocate2, dma_is_supported}

-- What the first query leaves in `supported`, which it may not write.
abbrev pub written : Option Bool → Bool
written none = false
written (some b) = b

-- Whether all additional options are the standard one; the comparison of names is a parameter.
unfoldable pub only_standard : (String → Bool) → List String → Bool
only_standard is_dataspace [] = true
only_standard is_dataspace (o ∷ os) =
    if is_dataspace o then only_standard is_dataspace os else false

module _ {W T : Type 0} where
  abbrev set_backend : Backend → Action (ServiceState W T) (Unit {0})
  set_backend b = modify λ s. record s { backend = some b }

module _ {W T : Type 0} (p : Platform W T) (v : Services W) where
  unfoldable pub is_ready : Backend → Action (ServiceState W T) Bool
  is_ready gbm = library_call is_gralloc_gbm_ready
  is_ready dma_buf = dma_is_ready p v

  unfoldable pub init_backend : Backend → Action (ServiceState W T) Status
  init_backend gbm = library_call (gralloc_gbm_init p)
  init_backend dma_buf = dma_init p v

  unfoldable pub check_found : Option Backend → Action (ServiceState W T) (Option Backend)
  check_found none = pure none
  check_found (some b) = do
    ready ← is_ready b
    if ready
        then pure (some b)
        else do ret ← init_backend b; pure (if is_ok ret then some b else none)

  -- `CHECK_BACKEND`: the backend, ready or initialised just now, or none for `NO_RESOURCES`.
  unfoldable pub check_backend : Action (ServiceState W T) (Option Backend)
  check_backend = do current ← gets λ s. s.backend; check_found current

  -- The result for the DMA-BUF backend is not read.
  unfoldable pub init : Action (ServiceState W T) Status
  init = do ret ← init_backend dma_buf; init_backend gbm

module _ {W T : Type 0} (c : Config) (p : Platform W T) (v : Services W) where
  unfoldable pub backend_allocate2 :
      Backend → Info → ℕ → Action (ServiceState W T) (BinderStatus × Option Allocation)
  backend_allocate2 gbm info count = gbm_allocate2 c p v info count
  backend_allocate2 dma_buf info count = dma_allocate2 p v info count

  unfoldable pub backend_is_supported :
      Backend → Info → Action (ServiceState W T) (BinderStatus × Option Bool)
  backend_is_supported gbm info = gbm_is_supported c p v info
  backend_is_supported dma_buf info = pure (status_ok, some (dma_is_supported info))

  unfoldable pub select_backend : Info → Action (ServiceState W T) Status
  select_backend info = do
    (status, by_gbm) ← backend_is_supported gbm info
    if written by_gbm then (do set_backend gbm; pure ok) else do
      (status', by_dma_buf) ← backend_is_supported dma_buf info
      if written by_dma_buf then (do set_backend dma_buf; pure ok) else pure einval

  -- The result of the first selection is not read.
  unfoldable pub allocate2 :
      Info → (count : ℕ) → Action (ServiceState W T) (BinderStatus × Option Allocation)
  allocate2 info count = do
    chosen ← select_backend info
    checked ← check_backend p v
    elim checked [
      | none ↦ pure (service_error no_resources, none)
      | some b ↦ backend_allocate2 b info count
    ]

  -- `GrallocGenericAllocatorV2::allocate`; the decoder gives the descriptor its name.
  unfoldable pub allocate_encoded :
      List ℕ → (count : ℕ) → Action (ServiceState W T) (BinderStatus × Option Allocation)
  allocate_encoded bytes count = elim (v.decode bytes) [
    | none ↦ pure (service_error bad_descriptor, none)
    | some info ↦ allocate2 (record info { name = "auto_generated"; option_names = [] }) count
  ]

  unfoldable pub is_supported :
      (String → Bool) → Info → Action (ServiceState W T) (BinderStatus × Option Bool)
  is_supported is_dataspace info =
      if not (only_standard is_dataspace info.option_names)
      then pure (status_ok, some false)
      else do
        chosen ← select_backend info
        checked ← check_backend p v
        elim checked [
          | none ↦ pure (service_error no_resources, none)
          | some b ↦ backend_is_supported b info
        ]
