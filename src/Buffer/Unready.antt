-- ===== src/Buffer/Unready.antt =====
-- The buffers of common/gralloc_gbm.c without a driver.
use gralloc_gbm.Base.{ℕ, ◌≡◌, refl, false, Option, none, some}
use gralloc_gbm.Machine.{enodev, done, Fault, fault}
use gralloc_gbm.Flags.{Config}
use gralloc_gbm.Platform.{Platform}
use gralloc_gbm.State.{State}
use gralloc_gbm.Handle.{Handle, Descriptor}
use gralloc_gbm.Driver.{is_gralloc_gbm_ready}
use gralloc_gbm.Lock.{gralloc_gbm_android_buffer_lock}
use gralloc_gbm.Buffer.{
  is_allocator_desc_supported, gralloc_gbm_android_buffer_new, gralloc_gbm_android_buffer_import,
  gralloc_gbm_android_buffer_free,
}

module _ {W T : Type 0} (c : Config) (p : Platform W T) (s : State W T) where
  -- While the driver is not ready, creating, importing, freeing and locking a buffer return
  -- `-ENODEV`, no descriptor is supported, and nothing changes.
  pub unready :
      is_gralloc_gbm_ready s ≡ done (false, s)
      → ((desc : Descriptor) → gralloc_gbm_android_buffer_new c p desc s ≡ done ((enodev, none), s))
        × ((h : Handle) → gralloc_gbm_android_buffer_import c p h s ≡ done (enodev, s))
        × ((h : Handle) → gralloc_gbm_android_buffer_free p h s ≡ done (enodev, s))
        × ((h : Handle) (usage : ℕ)
            → gralloc_gbm_android_buffer_lock p h usage s ≡ done ((enodev, none), s))
        × ((d : Option Descriptor) → is_allocator_desc_supported c p d s ≡ done (false, s))
  unfolding gralloc_gbm_android_buffer_new gralloc_gbm_android_buffer_import
      gralloc_gbm_android_buffer_free gralloc_gbm_android_buffer_lock is_allocator_desc_supported
  unready e = (λ desc. rw e refl, λ h. rw e refl, λ h. rw e refl, λ h usage. rw e refl, unsupported)
    where
      unsupported : (d : Option Descriptor) → is_allocator_desc_supported c p d s ≡ done (false, s)
      unsupported none = rw e refl
      unsupported (some q) = rw e refl

  -- Where the test whether the driver is ready faults, so do these calls.
  pub unusable :
      (x : Fault)
      → is_gralloc_gbm_ready s ≡ fault x
      → ((desc : Descriptor) → gralloc_gbm_android_buffer_new c p desc s ≡ fault x)
        × ((h : Handle) → gralloc_gbm_android_buffer_import c p h s ≡ fault x)
        × ((h : Handle) → gralloc_gbm_android_buffer_free p h s ≡ fault x)
        × ((h : Handle) (usage : ℕ) → gralloc_gbm_android_buffer_lock p h usage s ≡ fault x)
  unfolding gralloc_gbm_android_buffer_new gralloc_gbm_android_buffer_import
      gralloc_gbm_android_buffer_free gralloc_gbm_android_buffer_lock
  unusable x e = (λ desc. rw e refl, λ h. rw e refl, λ h. rw e refl, λ h usage. rw e refl)
