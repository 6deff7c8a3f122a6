-- ===== src/Mapper/Gbm.antt =====
-- The operations of mapper_stablec/backend/MapperGrallocGbm.cpp that are calls of the library.
use gralloc_gbm.Base.{ℕ, Option, Bool}
use gralloc_gbm.Machine.{Ptr, Status, ok, Action, pure}
use gralloc_gbm.Word.{u32}
use gralloc_gbm.Flags.{Config}
use gralloc_gbm.Platform.{Platform}
use gralloc_gbm.State.{State}
use gralloc_gbm.Handle.{Handle}
use gralloc_gbm.Driver.{is_gralloc_gbm_ready, gralloc_gbm_init}
use gralloc_gbm.Lock.{gralloc_gbm_android_buffer_lock, gralloc_gbm_android_buffer_unlock}
use gralloc_gbm.Buffer.{gralloc_gbm_android_buffer_import, gralloc_gbm_android_buffer_free}

module _ {W T : Type 0} where
  unfoldable pub gbm_is_ready : Action (State W T) Bool
  gbm_is_ready = is_gralloc_gbm_ready

  unfoldable pub gbm_flush_locked_buffer : Handle → Action (State W T) Status
  gbm_flush_locked_buffer h = pure ok

  unfoldable pub gbm_reread_locked_buffer : Handle → Action (State W T) Status
  gbm_reread_locked_buffer h = pure ok

module _ {W T : Type 0} (c : Config) (p : Platform W T) where
  unfoldable pub gbm_import_buffer : Handle → Action (State W T) Status
  gbm_import_buffer h = gralloc_gbm_android_buffer_import c p h

module _ {W T : Type 0} (p : Platform W T) where
  unfoldable pub gbm_init : Action (State W T) Status
  gbm_init = gralloc_gbm_init p

  unfoldable pub gbm_free_buffer : Handle → Action (State W T) Status
  gbm_free_buffer h = gralloc_gbm_android_buffer_free p h

  -- The usage is cut to the `int` that the library takes; the region and the fence are not read.
  unfoldable pub gbm_lock_buffer : Handle → ℕ → Action (State W T) (Status × Option Ptr)
  gbm_lock_buffer h cpu_usage = gralloc_gbm_android_buffer_lock p h (u32 cpu_usage)

  unfoldable pub gbm_unlock_buffer : Handle → Action (State W T) Status
  gbm_unlock_buffer h = gralloc_gbm_android_buffer_unlock p h
