-- ===== src/Tests/Singletons.antt =====
-- The theorems on the shared pointers to the backends, where the GBM backend has been selected before
-- a blob.
use gralloc_gbm.Base.{ℕ, ◌≡◌, ◌≢◌, List, refl, true, false, some, none, ◌==◌, if◌then◌else◌, arith}
use gralloc_gbm.Machine.{Ptr, Status, done}
use gralloc_gbm.Platform.{Buffer}
use gralloc_gbm.Mapper.Front.{
  MapperBackendType, mapper_gralloc_gbm, mapper_gralloc_dmabuf, MapperState,
}
use gralloc_gbm.Mapper.Singletons.{Backends, same_class, select_shared_backend}
use gralloc_gbm.Mapper.Singletons.Shared.{IsHeld, IsShared, held}
use gralloc_gbm.Mapper.Singletons.Selected.{Selects, select_shared_backend-Selects}
use gralloc_gbm.Allocator.{ServiceState, gbm, status_ok}
use gralloc_gbm.Allocator.Gbm.{gbm_is_supported}
use gralloc_gbm.Allocator.DmaBuf.{dma_is_supported}
use gralloc_gbm.Allocator.Service.{select_backend}
use gralloc_gbm.Allocator.Pointers.{select_allocator_backend}
use gralloc_gbm.Allocator.Pointers.Selected.{Agrees, select_allocator-Agrees}
use gralloc_gbm.Tests.{sample, config}
use gralloc_gbm.Tests.Requests.{services}
use gralloc_gbm.Tests.Requests
use gralloc_gbm.Tests.Mapped.{blob, empty}
use gralloc_gbm.Tests.Runs.{start}

abbrev selected : Backends
selected = record {
  uses = λ q. if q == 3 then 1 else 0;
  class = λ q. if q == 3 then some mapper_gralloc_gbm else none;
  next = 5;
  weak = λ k. if same_class k mapper_gralloc_gbm then some 3 else none;
  backend = some 3;
}

known_lem : (j : MapperBackendType) (r : Ptr) → selected.weak j ≡ some r → 3 ≡ r
known_lem mapper_gralloc_gbm r e = cc
known_lem mapper_gralloc_dmabuf r e = cc

apart_lem :
    (j : MapperBackendType) → same_class j mapper_gralloc_gbm ≡ false → selected.weak j ≢ some 3
apart_lem mapper_gralloc_gbm other e = cc
apart_lem mapper_gralloc_dmabuf other e = cc

selected-IsHeld : IsHeld selected 3 mapper_gralloc_gbm
selected-IsHeld = record {
  backend = refl;
  class = refl;
  one = refl;
  known = λ j r e. omega (arith, known_lem j r e);
  weak = refl;
  unused = λ r ne. rw ne refl;
  dead = λ r ne. rw ne refl;
  apart = apart_lem;
}

abbrev mapper : MapperState (Ptr → Ptr) (List Buffer) ℕ
mapper = record { library = start; dma = empty; backend = some mapper_gralloc_gbm }

select_shared_backend-Selects_example : Selects blob mapper (select_shared_backend blob selected)
select_shared_backend-Selects_example =
    select_shared_backend-Selects selected blob mapper (held 3 mapper_gralloc_gbm selected-IsHeld)

-- A service in the same state, and the question about a blob.
abbrev service : ServiceState (Ptr → Ptr) (List Buffer)
service = record { library = start; has_heaps = true; backend = some gbm }

blob_refused :
    gbm_is_supported config sample services Requests.blob service
    ≡ done ((status_ok, some false), service)
unfolding gbm_is_supported
blob_refused = refl

select_allocator-Agrees_example :
    (r : Status) × (t : Backends) × (z : ServiceState (Ptr → Ptr) (List Buffer))
    × (select_allocator_backend false (dma_is_supported Requests.blob) selected ≡ done (r, t))
    × (select_backend config sample services Requests.blob service ≡ done (r, z))
    × IsShared t
    × Agrees z t
select_allocator-Agrees_example =
    select_allocator-Agrees config sample services Requests.blob selected service service status_ok
      (some false) (held 3 mapper_gralloc_gbm selected-IsHeld) refl blob_refused
