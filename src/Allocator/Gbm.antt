-- ===== src/Allocator/Gbm.antt =====
-- allocator/backend/AllocatorGrallocGbm.cpp.
use gralloc_gbm.Base.{
  ℕ, zero, suc, Bool, false, not, Option, none, some, List, [], ◌∷◌, ◌++◌, ◌==◌, if◌then◌else◌,
}
use gralloc_gbm.Machine.{of_outcome, uncaught_exception, Action, pure, stop, ◌>>=◌, ◌>>◌}
use gralloc_gbm.Word.{is_negative}
use gralloc_gbm.Hal.Pixel
use gralloc_gbm.Flags.{Config}
use gralloc_gbm.Platform.{Platform}
use gralloc_gbm.Handle.{Handle, Descriptor}
use gralloc_gbm.Stride.{calculate_android_pixel_stride}
use gralloc_gbm.Buffer.{
  is_allocator_desc_supported, gralloc_gbm_android_buffer_new, gralloc_gbm_android_buffer_free,
}
use gralloc_gbm.Allocator.{
  BinderStatus, status_ok, service_error, unsupported, Info, Allocation, Services, ServiceState,
  library_call, system_call, generate_gralloc_generic_desc,
}

module _ {W T : Type 0} (p : Platform W T) (v : Services W) where
  -- The release of one buffer and its handle.
  unfoldable pub release : Handle → Action (ServiceState W T) (Unit {0})
  release h = do
    freed ← library_call (gralloc_gbm_android_buffer_free p h)
    system_call λ w. (tt, v.handle_close w h)

  -- The loop that releases the buffers made before a failure.
  unfoldable pub release_all : List Handle → Action (ServiceState W T) (Unit {0})
  release_all [] = pure tt
  release_all (h ∷ hs) = do release h; release_all hs

  -- The loop that hands the buffers over: each is duplicated for the caller, and then released.
  unfoldable pub hand_over : List Handle → Action (ServiceState W T) (List Handle)
  hand_over [] = pure []
  hand_over (h ∷ hs) = do
    copy ← system_call λ w. v.dup_to_aidl w h
    release h
    copies ← hand_over hs
    pure (copy ∷ copies)

module _ {W T : Type 0} (c : Config) (p : Platform W T) (v : Services W) where
  -- The loop that makes the buffers: `n` are left to make, `made` are made. None after a failure,
  -- when those that were made have been released.
  unfoldable pub make_buffers :
      Descriptor
      → (n : ℕ) → (made : List Handle) → (stride : ℕ)
      → Action (ServiceState W T) (Option (List Handle × ℕ))
  make_buffers desc zero made stride = pure (some (made, stride))
  make_buffers desc (suc n) made stride = do
    (ret, out) ← library_call (gralloc_gbm_android_buffer_new c p desc)
    elim out [
      | none ↦ (do release_all p v made; pure none)
      | some (h, gbm_stride) ↦ do
        s ← of_outcome (calculate_android_pixel_stride desc.format gbm_stride)
        make_buffers desc n (made ++ h ∷ []) s
    ]

  -- The status, and what is written to `*outResult`, if anything is. A negative count makes
  -- `resize` throw.
  unfoldable pub gralloc_gbm_allocate :
      Descriptor → (count : ℕ) → Action (ServiceState W T) (BinderStatus × Option Allocation)
  gralloc_gbm_allocate desc count = do
    supported ← library_call (is_allocator_desc_supported c p (some desc))
    if not supported
        then pure (service_error unsupported, none)
        else if is_negative count
        then stop uncaught_exception
        else do
          made ← make_buffers desc count [] 0
          elim made [
            | none ↦ pure (service_error unsupported, none)
            | some (hs, stride) ↦ do
              copies ← hand_over p v hs
              pure (status_ok, some (record { buffers = copies; stride = stride }))
          ]

  unfoldable pub gbm_allocate2 :
      Info → (count : ℕ) → Action (ServiceState W T) (BinderStatus × Option Allocation)
  gbm_allocate2 info count = do
    desc ← library_call (generate_gralloc_generic_desc p info)
    elim desc [
      | none ↦ pure (service_error unsupported, none)
      | some d ↦ gralloc_gbm_allocate d count
    ]

  unfoldable pub gbm_is_supported : Info → Action (ServiceState W T) (BinderStatus × Option Bool)
  gbm_is_supported info = if info.format == Pixel.blob then pure (status_ok, some false) else do
    desc ← library_call (generate_gralloc_generic_desc p info)
    elim desc [
      | none ↦ pure (service_error unsupported, none)
      | some d ↦ do
        b ← library_call (is_allocator_desc_supported c p (some d))
        pure (status_ok, some b)
    ]
