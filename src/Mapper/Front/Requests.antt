-- ===== src/Mapper/Front/Requests.antt =====
-- mapper_stablec/Mapper.cpp: importing, freeing, locking and unlocking a buffer, its size in
-- transport, and the requests that do nothing. A `NULL` buffer is none.
use gralloc_gbm.Base.{ℕ, Bool, Option, none, some, ◌==◌, if◌then◌else◌}
use gralloc_gbm.Machine.{Ptr, null, assertion_failed, Action, pure, stop, ◌>>=◌, ◌>>◌}
use gralloc_gbm.Flags.{Config}
use gralloc_gbm.Platform.{Platform}
use gralloc_gbm.State.{outside}
use gralloc_gbm.Mapper.Standard.{
  MapperError, error_none, error_bad_buffer, error_bad_value, error_no_resources,
}
use gralloc_gbm.Mapper.Front.{
  MapperBackendType, NativeHandle, MapperSystem, MapperState, in_library, on_backend,
  backend_import, backend_free, backend_lock, backend_unlock, backend_flush, backend_reread,
}

-- `result != 0 ? AIMAPPER_ERROR_NO_RESOURCES : AIMAPPER_ERROR_NONE`.
abbrev pub mapper_result : Bool → MapperError
mapper_result succeeded = if succeeded then error_none else error_no_resources

-- The numbers of file descriptors and of integers that are written out.
unfoldable pub get_transport_size : Option NativeHandle → MapperError × Option (ℕ × ℕ)
get_transport_size none = (error_bad_buffer, none)
get_transport_size (some n) = (error_none, some (n.num_fds, n.num_ints))

-- The address and the size of the region that are written out.
unfoldable pub get_reserved_region : Option NativeHandle → MapperError × Option (Ptr × ℕ)
get_reserved_region none = (error_bad_buffer, none)
get_reserved_region (some n) = (error_none, some (null, 0))

-- `dumpBuffer` and `dumpAllBuffers`, which call no callback.
unfoldable pub dump_buffer : Option NativeHandle → MapperError
dump_buffer none = error_bad_buffer
dump_buffer (some n) = error_none

unfoldable pub dump_all_buffers : MapperError
dump_all_buffers = error_none

module _ {W T V : Type 0} (c : Config) (p : Platform W T) (v : MapperSystem W V) where
  -- The clone goes to the backend, and is closed if the backend refuses it.
  unfoldable pub import_clone :
      MapperBackendType
      → Option NativeHandle
      → Action (MapperState W T V) (MapperError × Option NativeHandle)
  import_clone b none = pure (error_no_resources, none)
  import_clone b (some cloned) = do
    imported ← backend_import c p v cloned.content b
    if imported then pure (error_none, some cloned) else do
      in_library (outside λ w. (tt, v.handle_close w cloned))
      pure (error_no_resources, none)

  -- The second result is what is written to `*outBufferHandle`.
  unfoldable pub mapper_import_buffer :
      Option NativeHandle → Action (MapperState W T V) (MapperError × Option NativeHandle)
  mapper_import_buffer none = pure (error_bad_buffer, none)
  mapper_import_buffer (some n) =
      if n.num_fds == 0
      then pure (error_bad_buffer, none)
      else on_backend p v n.content (error_no_resources, none)
          λ b. do cloned ← in_library (outside λ w. v.handle_clone w n); import_clone b cloned

module _ {W T V : Type 0} (p : Platform W T) (v : MapperSystem W V) where
  unfoldable pub mapper_free_buffer : Option NativeHandle → Action (MapperState W T V) MapperError
  mapper_free_buffer none = pure error_bad_buffer
  mapper_free_buffer (some n) =
      on_backend p v n.content error_no_resources
        λ b. do freed ← backend_free p v n.content b; pure (mapper_result freed)

  -- The usage is a 64-bit pattern; the region and the fence go to the backend, which does not read
  -- them. The second result is what is written to `*outData`.
  unfoldable pub mapper_lock :
      Option NativeHandle → (cpu_usage : ℕ) → Action (MapperState W T V) (MapperError × Option Ptr)
  mapper_lock none cpu_usage = pure (error_bad_buffer, none)
  mapper_lock (some n) cpu_usage =
      if cpu_usage == 0
      then pure (error_bad_value, none)
      else on_backend p v n.content (error_no_resources, none)
          λ b. do
            (locked, out) ← backend_lock p v n.content cpu_usage b
            pure (mapper_result locked, out)

  unfoldable pub mapper_unlock : Option NativeHandle → Action (MapperState W T V) MapperError
  mapper_unlock none = pure error_bad_buffer
  mapper_unlock (some n) =
      on_backend p v n.content error_no_resources
        λ b. do unlocked ← backend_unlock p v n.content b; pure (mapper_result unlocked)

  -- These two do not test the buffer before `selectBackend` asserts it.
  unfoldable pub mapper_flush : Option NativeHandle → Action (MapperState W T V) MapperError
  mapper_flush none = stop assertion_failed
  mapper_flush (some n) =
      on_backend p v n.content error_no_resources
        λ b. do flushed ← backend_flush p v n.content b; pure (mapper_result flushed)

  unfoldable pub mapper_reread : Option NativeHandle → Action (MapperState W T V) MapperError
  mapper_reread none = stop assertion_failed
  mapper_reread (some n) =
      on_backend p v n.content error_no_resources
        λ b. do reread ← backend_reread p v n.content b; pure (mapper_result reread)
