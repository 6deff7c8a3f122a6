-- ===== src/Tests/Front.antt =====
-- The theorems on the mapper, at concrete buffers.
use gralloc_gbm.Base.{ℕ, ◌≡◌, refl, true, List, none, some, arith}
use gralloc_gbm.Machine.{Ptr, done}
use gralloc_gbm.Word.{u32}
use gralloc_gbm.Hal.Usage
use gralloc_gbm.Platform.{Buffer}
use gralloc_gbm.Handle.{Handle}
use gralloc_gbm.Lock.Calls.{guarded, guarded_fault}
use gralloc_gbm.Buffer.Creation.{new_data}
use gralloc_gbm.Mapper.Standard.{dataspace, number, error_none}
use gralloc_gbm.Mapper.Front.{
  mapper_gralloc_gbm, NativeHandle, MapperSystem, MapperState, backend_of,
}
use gralloc_gbm.Mapper.Front.Routing.{LockPasses, mapper_lock-LockPasses}
use gralloc_gbm.Mapper.Front.Session.{provided_result, mapper_get-set_dataspace}
use gralloc_gbm.Mapper.Front.Standards.{mapper_get_standard_metadata, mapper_set_standard_metadata}
use gralloc_gbm.Tests.{sample, sample-KeepsUserData, first_buffer}
use gralloc_gbm.Tests.Buffers.{stocked, held_handle, stocked-Manages, rgba_8888-HasDepth}
use gralloc_gbm.Tests.Mapped.{system, blob, info, imported-IsImported}
use gralloc_gbm.Tests.Mapped

-- Every value takes four bytes, and a clone is the handle itself.
abbrev pub mapper_system : MapperSystem (Ptr → Ptr) ℕ
mapper_system = record {
  dma = system;
  handle_clone = λ w n. (some n, w);
  handle_close = λ w n. w;
  is_standard_name = λ n. true;
  provide = λ x size. 4;
  provide_unlisted = 7;
}

abbrev mapper_state : MapperState (Ptr → Ptr) (List Buffer) ℕ
mapper_state = record { library = stocked; dma = Mapped.imported info; backend = none }

abbrev pub native : Handle → NativeHandle
native h = record { num_fds = 1; num_ints = 13; content = h }

held_routed : backend_of held_handle ≡ mapper_gralloc_gbm
unfolding backend_of
held_routed = refl

mapper_lock-LockPasses_example :
    LockPasses sample mapper_system mapper_state
      (native held_handle)
      first_buffer
      5
      (new_data 5)
      stocked-Manages
      held_routed
      sample-KeepsUserData
      Usage.hw_render
      (guarded_fault sample stocked held_handle first_buffer (new_data 5) (u32 Usage.hw_render))
      (guarded sample stocked held_handle first_buffer (new_data 5) (u32 Usage.hw_render))
mapper_lock-LockPasses_example =
    mapper_lock-LockPasses sample mapper_system mapper_state (native held_handle) first_buffer 5
      (new_data 5) stocked-Manages held_routed sample-KeepsUserData Usage.hw_render
      (λ e. omega arith)

mapper_get-set_dataspace_example :
    (t : MapperState (Ptr → Ptr) (List Buffer) ℕ) × (u : MapperState (Ptr → Ptr) (List Buffer) ℕ)
    × (mapper_set_standard_metadata sample mapper_system
          (some (native held_handle))
          dataspace
          (record { number = 3; size = 4 })
          mapper_state
        ≡ done (error_none, t))
    × (mapper_get_standard_metadata sample mapper_system (some (native held_handle)) dataspace 4 t
        ≡ done ((provided_result mapper_system (number 3) 4, some (number 3)), u))
mapper_get-set_dataspace_example =
    mapper_get-set_dataspace sample mapper_system sample-KeepsUserData mapper_state
      (native held_handle) first_buffer 5 (new_data 5) stocked-Manages held_routed
      rgba_8888-HasDepth (record { number = 3; size = 4 }) 4 refl (λ e. omega arith)
