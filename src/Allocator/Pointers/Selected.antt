-- ===== src/Allocator/Pointers/Selected.antt =====
-- The pointers of allocator/Allocator.cpp do what the model of the service does to its `mBackend`.
use gralloc_gbm.Base.{◌≡◌, refl, ◌∙◌, Bool, true, Option, none, some, Bool-cases, inl, inr}
use gralloc_gbm.Machine.{Ptr, Status, ok, einval, done}
use gralloc_gbm.Machine.Runs.{and_then_parts}
use gralloc_gbm.Flags.{Config}
use gralloc_gbm.Platform.{Platform}
use gralloc_gbm.Mapper.Front.{MapperBackendType, mapper_gralloc_gbm, mapper_gralloc_dmabuf}
use gralloc_gbm.Mapper.Singletons.{
  Backends, fetch_backend, fetch_backend_gralloc_gbm, assign_backend, select_backend_by_type,
  take_backend,
}
use gralloc_gbm.Mapper.Singletons.Shared.{IsHeld, IsShared, idle, held, backend_class}
use gralloc_gbm.Mapper.Singletons.Selected.{take-Holds}
use gralloc_gbm.Allocator.{BinderStatus, Info, gbm, dma_buf, Services, ServiceState}
use gralloc_gbm.Allocator.Gbm.{gbm_is_supported}
use gralloc_gbm.Allocator.DmaBuf.{dma_is_supported}
use gralloc_gbm.Allocator.Kept.Runs.{gbm_is_supported-KeepsBackend}
use gralloc_gbm.Allocator.Service.{written, select_backend}
use gralloc_gbm.Allocator.Service.Selection.{select_backend_lem}
use gralloc_gbm.Allocator.Threads.Together.{ends_backend}
use gralloc_gbm.Allocator.Pointers.{
  class_of, fetch_allocator_gralloc_gbm, select_allocator_by_type, select_allocator_backend,
}
use gralloc_gbm.Allocator.Pointers.Offered.{Takes, Refuses, idle-Takes, idle-Refuses}
use gralloc_gbm.Allocator.Pointers.Switched.{gbm-Takes, gbm-Refuses, dma-Takes, dma-Refuses}

shared-Takes : (s : Backends) → IsShared s → Takes s
shared-Takes s (idle i) = idle-Takes s i
shared-Takes s (held q mapper_gralloc_gbm i) = gbm-Takes s q i
shared-Takes s (held q mapper_gralloc_dmabuf i) = dma-Takes s q i

shared-Refuses : (s : Backends) → IsShared s → Refuses s
shared-Refuses s (idle i) = idle-Refuses s i
shared-Refuses s (held q mapper_gralloc_gbm i) = gbm-Refuses s q i
shared-Refuses s (held q mapper_gralloc_dmabuf i) = dma-Refuses s q i

-- A granted request is a taking of the GBM backend.
granted_lem :
    (by_dma_buf : Bool) (s t : Backends)
    → take_backend mapper_gralloc_gbm s ≡ done (tt, t)
    → select_allocator_backend true by_dma_buf s ≡ done (ok, t)
unfolding select_allocator_backend select_allocator_by_type fetch_allocator_gralloc_gbm take_backend
    select_backend_by_type fetch_backend_gralloc_gbm
granted_lem by_dma_buf s t e =
    let (q, u, fetched, rest) = and_then_parts (fetch_backend mapper_gralloc_gbm s) _ e in
    let (done_one, w, assign, last) = and_then_parts (assign_backend q u) _ rest in
    rw (fetched, assign, last) refl

held_class :
    (t : Backends) (q : Ptr) (k : MapperBackendType) → IsHeld t q k → backend_class t ≡ some k
held_class t q k i = rw (i.backend, i.class) refl

-- `mBackend` of the service is the class of the object that its pointer leads to.
abbrev pub Agrees : {W T : Type 0} → ServiceState W T → Backends → Type 0
Agrees x s = backend_class s ≡ elim x.backend [ none ↦ none | some b ↦ some (class_of b) ]

module _ {W T : Type 0} (c : Config) (p : Platform W T) (v : Services W) (info : Info) where
  -- Where no backend object lives but the one that `mBackend` points to, and the question whether the
  -- GBM backend supports the request returns, the selection returns, both on the pointers and in the
  -- model of the service, with the same result. What held before holds after it, and the class of the
  -- object that `mBackend` then points to is the backend of the model.
  pub select_allocator-Agrees :
      (s : Backends) (x y : ServiceState W T) (answer : BinderStatus) (by_gbm : Option Bool)
      → IsShared s
      → Agrees x s
      → gbm_is_supported c p v info x ≡ done ((answer, by_gbm), y)
      → (r : Status) × (t : Backends) × (z : ServiceState W T) × (select_allocator_backend
            (written by_gbm)
            (dma_is_supported info)
            s
          ≡ done (r, t))
        × (select_backend c p v info x ≡ done (r, z))
        × IsShared t
        × Agrees z t
  select_allocator-Agrees s x y answer by_gbm shared agrees e =
      let model = select_backend_lem c p v info x y answer by_gbm e in
      let same : y.backend ≡ x.backend =
        ends_backend ((gbm_is_supported-KeepsBackend c p v info).ends x) e in
      elim (Bool-cases (written by_gbm)) [
        | inl granted ↦
            let (q, holds) = take-Holds s mapper_gralloc_gbm shared in
            let (t, run, i) = holds in
            (
              ok,
              t,
              record y { backend = some gbm },
              rw granted (granted_lem (dma_is_supported info) s t run),
              model ∙ rw granted refl,
              held q mapper_gralloc_gbm i,
              held_class t q mapper_gralloc_gbm i,
            )
        | inr refused ↦ elim (Bool-cases (dma_is_supported info)) [
          | inl blob ↦
              let (q, t, run, i) = shared-Takes s shared in
              (
                ok,
                t,
                record y { backend = some dma_buf },
                rw (refused, blob) run,
                model ∙ rw (refused, blob) refl,
                held q mapper_gralloc_dmabuf i,
                held_class t q mapper_gralloc_dmabuf i,
              )
          | inr nothing ↦
              let (t, run, still, class) = shared-Refuses s shared in
              (
                einval,
                t,
                y,
                rw (refused, nothing) run,
                model ∙ rw (refused, nothing) refl,
                still,
                rw same (class ∙ agrees),
              )
        ]
      ]
