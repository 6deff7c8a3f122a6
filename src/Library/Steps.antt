-- ===== src/Library/Steps.antt =====
-- Sequences of calls of common/gralloc_gbm.c, as a step relation on its state.
use gralloc_gbm.Base.{ℕ, ◌≡◌, Option}
use gralloc_gbm.Machine.{Ptr, Status, done}
use gralloc_gbm.Flags.{Config}
use gralloc_gbm.Platform.{Platform}
use gralloc_gbm.State.{State}
use gralloc_gbm.Handle.{Handle, Descriptor}
use gralloc_gbm.Driver.{gralloc_gbm_init, gralloc_gbm_deinit}
use gralloc_gbm.Lock.{gralloc_gbm_android_buffer_lock, gralloc_gbm_android_buffer_unlock}
use gralloc_gbm.Buffer.{
  BufferInfo, gralloc_gbm_android_buffer_new, gralloc_gbm_android_buffer_import,
  gralloc_gbm_android_buffer_free, gralloc_gbm_android_buffer_query,
}
use gralloc_gbm.Library.Creations.{NewResult, HasNewDescriptor}

module _ {W T : Type 0} (c : Config) (p : Platform W T) where
  -- A call of the library from `s` that returns in `t`. The descriptor of a handle that is created is
  -- in no entry of the table.
  pub data Step : State W T → State W T → Type 0 where
    initialising : {s t : State W T} (r : Status) → gralloc_gbm_init p s ≡ done (r, t) → Step s t
    deinitialising :
        {s t : State W T} (r : Status) → gralloc_gbm_deinit p s ≡ done (r, t) → Step s t
    creation :
        {s t : State W T} (desc : Descriptor) (r : NewResult)
        → gralloc_gbm_android_buffer_new c p desc s ≡ done (r, t)
        → HasNewDescriptor p s r
        → Step s t
    importing :
        {s t : State W T} (h : Handle) (r : Status)
        → gralloc_gbm_android_buffer_import c p h s ≡ done (r, t)
        → Step s t
    freeing :
        {s t : State W T} (h : Handle) (r : Status)
        → gralloc_gbm_android_buffer_free p h s ≡ done (r, t)
        → Step s t
    locking :
        {s t : State W T} (h : Handle) (usage : ℕ) (r : Status × Option Ptr)
        → gralloc_gbm_android_buffer_lock p h usage s ≡ done (r, t)
        → Step s t
    unlocking :
        {s t : State W T} (h : Handle) (r : Status)
        → gralloc_gbm_android_buffer_unlock p h s ≡ done (r, t)
        → Step s t
    querying :
        {s t : State W T} (h : Handle) (r : Status × Option BufferInfo)
        → gralloc_gbm_android_buffer_query p h s ≡ done (r, t)
        → Step s t

  -- Any number of calls.
  pub data Reach : State W T → State W T → Type 0 where
    here : {s : State W T} → Reach s s
    after : {s t u : State W T} → Reach s t → Step t u → Reach s u
