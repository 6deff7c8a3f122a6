-- ===== src/Allocator/Pointers.antt =====
-- allocator/Allocator.cpp: the shared pointers behind the selection of a backend. The two classes of
-- backend objects are named as those of the mapper, whose functions have the same text.
pub mod Offered
pub mod Switched
pub mod Selected
use gralloc_gbm.Base.{Bool, if◌then◌else◌}
use gralloc_gbm.Machine.{Ptr, Status, ok, einval, Action, pure, ◌>>=◌, ◌>>◌}
use gralloc_gbm.Mapper.Front.{MapperBackendType, mapper_gralloc_gbm, mapper_gralloc_dmabuf}
use gralloc_gbm.Mapper.Singletons.{Backends, drop, fetch_backend, assign_backend}
use gralloc_gbm.Allocator.{Backend, gbm, dma_buf}

-- The class of the object that a backend is.
abbrev pub class_of : Backend → MapperBackendType
class_of gbm = mapper_gralloc_gbm
class_of dma_buf = mapper_gralloc_dmabuf

unfoldable pub fetch_allocator_dma_buf : Action Backends Ptr
fetch_allocator_dma_buf = fetch_backend mapper_gralloc_dmabuf

unfoldable pub fetch_allocator_gralloc_gbm : Action Backends Ptr
fetch_allocator_gralloc_gbm = fetch_backend mapper_gralloc_gbm

unfoldable pub select_allocator_by_type : Backend → Action Backends Ptr
select_allocator_by_type dma_buf = fetch_allocator_dma_buf
select_allocator_by_type gbm = fetch_allocator_gralloc_gbm

-- `selectBackend`, for the answers of the two backends. The local pointer takes the second object
-- before it gives up the first, and ends with the function.
unfoldable pub select_allocator_backend : (by_gbm by_dma_buf : Bool) → Action Backends Status
select_allocator_backend by_gbm by_dma_buf = do
  q ← select_allocator_by_type gbm
  if by_gbm then (do assign_backend q; drop q; pure ok) else do
    r ← select_allocator_by_type dma_buf
    drop q
    if by_dma_buf then (do assign_backend r; drop r; pure ok) else do drop r; pure einval
