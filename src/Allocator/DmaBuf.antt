-- ===== src/Allocator/DmaBuf.antt =====
-- allocator/backend/AllocatorDmaBuf.cpp.
use gralloc_gbm.Base.{
  ℕ, zero, suc, ◌*◌, Bool, true, not, ◌&&◌, ◌||◌, Option, none, some, List, [], ◌∷◌, ◌++◌, ◌==◌,
  if◌then◌else◌,
}
use gralloc_gbm.Machine.{
  Status, ok, null_deref, uncaught_exception, done, Action, pure, stop, ◌>>=◌, ◌>>◌, modify,
}
use gralloc_gbm.Word.{is_negative, u32, div_signed, sign_extend}
use gralloc_gbm.Hal.Pixel
use gralloc_gbm.Platform.{Platform}
use gralloc_gbm.Handle.{Handle, gralloc_handle_create}
use gralloc_gbm.Allocator.{
  BinderStatus, status_ok, service_error, no_resources, Info, Allocation, Services, ServiceState,
  library_call, system_call,
}

module _ {W T : Type 0} (p : Platform W T) (v : Services W) where
  unfoldable pub dma_is_ready : Action (ServiceState W T) Bool
  dma_is_ready s = done (s.has_heaps && not (v.has_no_heap s.library.world), s)

  -- `new` does not return `nullptr`.
  unfoldable pub dma_init : Action (ServiceState W T) Status
  dma_init = do modify λ s. record s { has_heaps = true }; pure ok

  -- `allocator->AllocSystem(true, buffer_size)`.
  unfoldable pub alloc_system : ℕ → Action (ServiceState W T) ℕ
  alloc_system size s =
      if s.has_heaps then system_call (λ w. v.alloc_system w size) s else stop null_deref s

  -- The loop that makes the buffers, none after a failure, when those that were made stay. The handle
  -- is written to unchecked.
  unfoldable pub make_dma_buffers :
      Info → (size n : ℕ) → (made : List Handle) → Action (ServiceState W T) (Option (List Handle))
  make_dma_buffers info size zero made = pure (some made)
  make_dma_buffers info size (suc n) made = do
    handle ← library_call (gralloc_handle_create p info.size info.format info.usage)
    fd ← alloc_system size
    if fd == 0 || is_negative fd then pure none else elim handle [
      | none ↦ stop null_deref
      | some h ↦
          make_dma_buffers info size n
            (made ++ record h { prime_fd = fd; stride = div_signed info.size.width 8 } ∷ [])
    ]

  -- The loop that hands the buffers over.
  unfoldable pub hand_over_dma : List Handle → Action (ServiceState W T) (List Handle)
  hand_over_dma [] = pure []
  hand_over_dma (h ∷ hs) = do
    copy ← system_call λ w. v.dup_to_aidl w h
    system_call λ w. (tt, v.handle_close w h)
    copies ← hand_over_dma hs
    pure (copy ∷ copies)

  -- The product of the sizes is one of `int32_t`, taken to wrap around, and then a `size_t`.
  unfoldable pub dma_allocate2 :
      Info → (count : ℕ) → Action (ServiceState W T) (BinderStatus × Option Allocation)
  dma_allocate2 info count = if is_negative count then stop uncaught_exception else do
    made ← make_dma_buffers info (sign_extend (u32 (info.size.width * info.size.height))) count []
    elim made [
      | none ↦ pure (service_error no_resources, none)
      | some hs ↦ do
        copies ← hand_over_dma hs
        pure (status_ok, some (record { buffers = copies; stride = div_signed info.size.width 8 }))
    ]

-- Only blobs of one row are supported.
unfoldable pub dma_is_supported : Info → Bool
dma_is_supported info = info.format == Pixel.blob && info.size.height == 1
