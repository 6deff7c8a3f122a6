-- ===== src/Tests/Life.antt =====
-- The theorem on sequences of requests to the mapper, at concrete requests.
use gralloc_gbm.Base.{ℕ, ◌≡◌, refl, false, List, Option, none, some}
use gralloc_gbm.Machine.{Ptr, done}
use gralloc_gbm.Platform.{Buffer}
use gralloc_gbm.Mapper.Standard.{error_none}
use gralloc_gbm.Mapper.DmaBuf.{
  import_buffer, mapper_dma_init, mapper_dma_is_ready, buffer_info_create, read_info, buffer_info,
}
use gralloc_gbm.Mapper.Front.{
  NativeHandle, MapperState, backend_of, on_backend, select_mapper_backend, check_current,
  is_mapper_ready, init_mapper, backend_import,
}
use gralloc_gbm.Mapper.Front.Requests.{
  import_clone, mapper_import_buffer, mapper_lock, mapper_unlock, mapper_flush, mapper_reread,
}
use gralloc_gbm.Mapper.Life.{IsIdleDma, idle, IsKept}
use gralloc_gbm.Mapper.Life.Imports.{KeepsObjects}
use gralloc_gbm.Mapper.Life.Calls.{Serves, LockServes}
use gralloc_gbm.Mapper.Life.Steps.{importing, Requests, here, after}
use gralloc_gbm.Mapper.Life.Reach.{reachable-IsKept}
use gralloc_gbm.Library.Start.{opened}
use gralloc_gbm.Tests.{config}
use gralloc_gbm.Tests.Mapped.{blob, empty, with_blob}
use gralloc_gbm.Tests.Runs.{blank, opened_state, opened_state-IsSound}
use gralloc_gbm.Tests.Front.{mapper_system, native}
use gralloc_gbm.Tests.Careful.{careful, careful-KeepsUserData, careful-MapsWhole, careful-IsHash}

-- The mapper at the start of the process.
abbrev unused : MapperState (Ptr → Ptr) (List Buffer) ℕ
unused = record { library = blank; dma = record empty { has_allocator = false }; backend = none }

unused-IsIdleDma : IsIdleDma unused.dma
unused-IsIdleDma = record { absent = refl; empty = λ fd. refl }

mapper_system-KeepsObjects : KeepsObjects careful mapper_system
mapper_system-KeepsObjects = record { clone = λ w n bo. refl; close = λ w n bo. refl }

-- A mapper that has opened the device, for its library.
abbrev opened_mapper : MapperState (Ptr → Ptr) (List Buffer) ℕ
opened_mapper = record unused { library = opened_state }

opened_mapper-IsKept : IsKept careful opened_mapper
opened_mapper-IsKept = record {
  library = opened (λ k. none) opened_state-IsSound;
  dma = idle unused-IsIdleDma;
}

abbrev with_imported : MapperState (Ptr → Ptr) (List Buffer) ℕ
with_imported = record opened_mapper { dma = with_blob; backend = some (backend_of blob) }

imports_blob :
    mapper_import_buffer config careful mapper_system (some (native blob)) opened_mapper
    ≡ done ((error_none, some (native blob)), with_imported)
unfolding mapper_import_buffer on_backend select_mapper_backend check_current is_mapper_ready
    init_mapper mapper_dma_is_ready mapper_dma_init import_clone backend_import import_buffer
    buffer_info_create read_info buffer_info backend_of
imports_blob = refl

-- A handle of the DMA-BUF backend is imported.
imports : Requests config careful mapper_system opened_mapper with_imported
imports = after here (importing (some (native blob)) (error_none, some (native blob)) imports_blob)

reachable-IsKept_example :
    IsKept careful with_imported
    × ((n : Option NativeHandle) (usage : ℕ)
        → LockServes careful with_imported
            (mapper_lock careful mapper_system n usage with_imported))
    × ((n : Option NativeHandle)
        → Serves careful with_imported (mapper_unlock careful mapper_system n with_imported))
    × ((n : NativeHandle)
        → Serves careful with_imported (mapper_flush careful mapper_system (some n) with_imported))
    × ((n : NativeHandle)
        → Serves careful with_imported (mapper_reread careful mapper_system (some n) with_imported))
reachable-IsKept_example =
    reachable-IsKept config careful mapper_system careful-IsHash careful-KeepsUserData
      careful-MapsWhole (λ n. refl) mapper_system-KeepsObjects opened_mapper with_imported
      opened_mapper-IsKept imports
