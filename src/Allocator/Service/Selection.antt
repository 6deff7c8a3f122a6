-- ===== src/Allocator/Service/Selection.antt =====
-- The selection of a backend in allocator/Allocator.cpp, and what a failed selection leads to.
use gralloc_gbm.Base.{
  ℕ, ◌≡◌, refl, ap, ◌∙◌, Bool, true, false, Option, some, ◌==◌, if◌then◌else◌, Bool-cases, inl, inr,
}
use gralloc_gbm.Machine.{Status, ok, einval, done}
use gralloc_gbm.Hal.Pixel
use gralloc_gbm.Flags.{Config}
use gralloc_gbm.Platform.{Platform}
use gralloc_gbm.Allocator.{BinderStatus, Info, Backend, gbm, dma_buf, Services, ServiceState}
use gralloc_gbm.Allocator.Gbm.{gbm_is_supported}
use gralloc_gbm.Allocator.DmaBuf.{dma_is_supported}
use gralloc_gbm.Allocator.Service.{
  written, is_ready, backend_allocate2, backend_is_supported, select_backend, check_found,
  check_backend, allocate2,
}

module _ {W T : Type 0} (p : Platform W T) (v : Services W) where
  check_found_lem :
      (t : ServiceState W T) (b : Backend)
      → is_ready p v b t ≡ done (true, t)
      → check_found p v (some b) t ≡ done (some b, t)
  unfolding check_found
  check_found_lem t b ready = rw ready refl

  check_backend_lem :
      (t : ServiceState W T) (b : Backend)
      → t.backend ≡ some b
      → is_ready p v b t ≡ done (true, t)
      → check_backend p v t ≡ done (some b, t)
  unfolding check_backend
  check_backend_lem t b earlier ready =
      ap (λ (o : Option Backend). check_found p v o t) earlier ∙ check_found_lem t b ready

module _ {W T : Type 0} (c : Config) (p : Platform W T) (v : Services W) (info : Info) where
  -- What a selection does after the answer of the GBM backend.
  abbrev pub selected : Option Bool → ServiceState W T → Status × ServiceState W T
  selected by_gbm t =
      if written by_gbm
      then (ok, record t { backend = some gbm })
      else (if dma_is_supported info
          then (ok, record t { backend = some dma_buf })
          else (einval, t))

  -- A selection takes the GBM backend if that supports the request, else the DMA-BUF backend if that
  -- does, and else fails and keeps the backend that was selected before.
  pub select_backend_lem :
      (s t : ServiceState W T) (answer : BinderStatus) (by_gbm : Option Bool)
      → gbm_is_supported c p v info s ≡ done ((answer, by_gbm), t)
      → select_backend c p v info s ≡ done (selected by_gbm t)
  unfolding select_backend backend_is_supported
  select_backend_lem s t answer by_gbm e = elim (Bool-cases (written by_gbm)) [
    | inl by_gbm_yes ↦ rw (e, by_gbm_yes) refl
    | inr by_gbm_no ↦ elim (Bool-cases (dma_is_supported info)) [
      | inl dma ↦ rw (e, by_gbm_no, dma) refl
      | inr none_left ↦ rw (e, by_gbm_no, none_left) refl
    ]
  ]

  -- A blob is never sent to the GBM backend: one of a single row selects the DMA-BUF backend, and any
  -- other fails to select and keeps the backend that was selected before.
  pub select_blob :
      (s : ServiceState W T)
      → info.format ≡ Pixel.blob
      → select_backend c p v info s
        ≡ done (
            if info.size.height == 1
            then (ok, record s { backend = some dma_buf })
            else (einval, s))
  unfolding select_backend backend_is_supported gbm_is_supported dma_is_supported
  select_blob s blob = elim (Bool-cases (info.size.height == 1)) [
    | inl one ↦ rw (blob, one) refl
    | inr more ↦ rw (blob, more) refl
  ]

  -- The failure of the selection is not looked at: a request that neither backend supports is run by
  -- the backend of an earlier request, if there was one and it is ready.
  pub allocate2_stale :
      (s t : ServiceState W T) (answer : BinderStatus) (by_gbm : Option Bool) (b : Backend)
      → gbm_is_supported c p v info s ≡ done ((answer, by_gbm), t)
      → written by_gbm ≡ false
      → dma_is_supported info ≡ false
      → t.backend ≡ some b
      → is_ready p v b t ≡ done (true, t)
      → (count : ℕ) → allocate2 c p v info count s ≡ backend_allocate2 c p v b info count t
  unfolding allocate2
  allocate2_stale s t answer by_gbm b e refused none_left earlier ready count =
      rw (select_backend_lem s t answer by_gbm e, refused, none_left, checked) refl
    where
      checked : check_backend p v t ≡ done (some b, t)
      checked = check_backend_lem p v t b earlier ready
