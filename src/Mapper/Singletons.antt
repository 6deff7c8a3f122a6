-- ===== src/Mapper/Singletons.antt =====
-- mapper_stablec/Mapper.cpp: the shared pointers behind the selection of a backend, which are
-- std::shared_ptr and std::weak_ptr of C++.
pub mod Selected
pub mod Shared
use gralloc_gbm.Base.{ℕ, suc, ◌-◌, Bool, true, false, Option, none, some, ◌==◌, if◌then◌else◌}
use gralloc_gbm.Machine.{Ptr, done, Action, pure, ◌>>=◌, ◌>>◌, modify, gets}
use gralloc_gbm.State.{update}
use gralloc_gbm.Handle.{Handle}
use gralloc_gbm.Mapper.Front.{
  MapperBackendType, mapper_gralloc_gbm, mapper_gralloc_dmabuf, backend_of,
}

-- The backend objects: the number of shared pointers to each, its class while it lives, the next new
-- address, the static weak pointer of each class, and `mBackend`.
pub record Backends : Type 0 where
  pub uses : Ptr → ℕ
  pub class : Ptr → Option MapperBackendType
  pub next : Ptr
  pub weak : MapperBackendType → Option Ptr
  pub backend : Option Ptr

abbrev pub same_class : MapperBackendType → MapperBackendType → Bool
same_class mapper_gralloc_gbm mapper_gralloc_gbm = true
same_class mapper_gralloc_gbm mapper_gralloc_dmabuf = false
same_class mapper_gralloc_dmabuf mapper_gralloc_gbm = false
same_class mapper_gralloc_dmabuf mapper_gralloc_dmabuf = true

-- A copy of a shared pointer, and the end of one; the last ends the object.
unfoldable pub retain : Ptr → Action Backends (Unit {0})
retain q = modify λ s. record s { uses = update s.uses q (suc (s.uses q)) }

unfoldable pub drop : Ptr → Action Backends (Unit {0})
drop q = modify λ s.
    if s.uses q == 1
    then record s { uses = update s.uses q 0; class = update s.class q none }
    else record s { uses = update s.uses q (s.uses q - 1) }

-- `std::weak_ptr::lock`: no pointer where the object is gone.
unfoldable pub weak_lock : Option Ptr → Action Backends (Option Ptr)
weak_lock none = pure none
weak_lock (some q) = do
  n ← gets λ s. s.uses q
  if n == 0 then pure none else do retain q; pure (some q)

-- `std::make_shared`.
unfoldable pub make_shared : MapperBackendType → Action Backends Ptr
make_shared k s = done (
  s.next,
  record s {
    uses = update s.uses s.next 1;
    class = update s.class s.next (some k);
    next = suc s.next;
  },
)

-- `fetchBackendDmaBuf` and `fetchBackendGrallocGbm`, which differ in the class.
unfoldable pub fetch_backend : MapperBackendType → Action Backends Ptr
fetch_backend k = do
  w ← gets λ s. s.weak k
  found ← weak_lock w
  elim found [
    | some q ↦ pure q
    | none ↦ do
      q ← make_shared k
      modify λ s. record s { weak = λ j. if same_class j k then some q else s.weak j }
      pure q
  ]

unfoldable pub fetch_backend_dma_buf : Action Backends Ptr
fetch_backend_dma_buf = fetch_backend mapper_gralloc_dmabuf

unfoldable pub fetch_backend_gralloc_gbm : Action Backends Ptr
fetch_backend_gralloc_gbm = fetch_backend mapper_gralloc_gbm

unfoldable pub select_backend_by_type : MapperBackendType → Action Backends Ptr
select_backend_by_type mapper_gralloc_dmabuf = fetch_backend_dma_buf
select_backend_by_type mapper_gralloc_gbm = fetch_backend_gralloc_gbm

-- `mBackend = backend`, which ends the pointer that was there.
unfoldable pub assign_backend : Ptr → Action Backends (Unit {0})
assign_backend q = do
  retain q
  old ← gets λ s. s.backend
  modify λ s. record s { backend = some q }
  elim old [ none ↦ pure tt | some r ↦ drop r ]

-- The selection of a class. The local pointer ends with the function.
unfoldable pub take_backend : MapperBackendType → Action Backends (Unit {0})
take_backend k = do q ← select_backend_by_type k; assign_backend q; drop q

-- `selectBackend`.
unfoldable pub select_shared_backend : Handle → Action Backends (Unit {0})
select_shared_backend h = take_backend (backend_of h)
