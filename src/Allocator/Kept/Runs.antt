-- ===== src/Allocator/Kept/Runs.antt =====
-- The requests that the backends of allocator/backend/ run leave `mBackend` of the service alone.
use gralloc_gbm.Base.{
  ℕ, zero, suc, refl, some, List, [], ◌∷◌, Bool-cases, inl, inr, ◌++◌, ◌==◌, ◌||◌, not,
}
use gralloc_gbm.Word.{is_negative}
use gralloc_gbm.Flags.{Config}
use gralloc_gbm.Hal.Pixel
use gralloc_gbm.Platform.{Platform}
use gralloc_gbm.Handle.{Handle, Descriptor}
use gralloc_gbm.Buffer.{is_allocator_desc_supported, gralloc_gbm_android_buffer_new}
use gralloc_gbm.Allocator.{generate_gralloc_generic_desc, Info, Backend, gbm, dma_buf, Services}
use gralloc_gbm.Allocator.Gbm.{
  gbm_is_supported, release, release_all, hand_over, make_buffers, gralloc_gbm_allocate,
  gbm_allocate2,
}
use gralloc_gbm.Allocator.DmaBuf.{alloc_system, make_dma_buffers, hand_over_dma, dma_allocate2}
use gralloc_gbm.Allocator.Service.{backend_allocate2}
use gralloc_gbm.Allocator.Kept.{
  KeepsBackend, keeps_then, keeps_option, keeps_pure, keeps_stop, keeps_library, keeps_system,
  keeps_outcome,
}

module _ {W T : Type 0} (p : Platform W T) (v : Services W) where
  release-KeepsBackend : (h : Handle) → KeepsBackend (release p v h)
  unfolding release
  release-KeepsBackend h = keeps_then _ _ (keeps_library _) (λ freed. keeps_system _)

  release_all-KeepsBackend : (hs : List Handle) → KeepsBackend (release_all p v hs)
  unfolding release_all
  release_all-KeepsBackend [] = keeps_pure
  release_all-KeepsBackend (h ∷ hs) =
      keeps_then _ _ (release-KeepsBackend h) (λ released. release_all-KeepsBackend hs)

  hand_over-KeepsBackend : (hs : List Handle) → KeepsBackend (hand_over p v hs)
  unfolding hand_over
  hand_over-KeepsBackend [] = keeps_pure
  hand_over-KeepsBackend (h ∷ hs) = keeps_then _ _ (keeps_system (λ w. v.dup_to_aidl w h)) λ copy.
      keeps_then _ _ (release-KeepsBackend h) λ released.
        keeps_then _ _ (hand_over-KeepsBackend hs) λ copies. keeps_pure {a = copy ∷ copies}

  alloc_system-KeepsBackend : (size : ℕ) → KeepsBackend (alloc_system p v size)
  unfolding alloc_system
  alloc_system-KeepsBackend size = record {
    ends = λ s. elim (Bool-cases s.has_heaps) [
      | inl heaps ↦ rw heaps refl
      | inr no_heaps ↦ rw no_heaps tt
    ];
  }

  make_dma_buffers-KeepsBackend :
      (info : Info) (size n : ℕ) (made : List Handle)
      → KeepsBackend (make_dma_buffers p v info size n made)
  unfolding make_dma_buffers
  make_dma_buffers-KeepsBackend info size zero made = keeps_pure
  make_dma_buffers-KeepsBackend info size (suc n) made = keeps_then _ _ (keeps_library _) λ handle.
      keeps_then _ _ (alloc_system-KeepsBackend size) λ fd.
        elim (Bool-cases (fd == 0 || is_negative fd)) [
          | inl failed ↦ rw failed keeps_pure
          | inr granted ↦
              rw granted (
                keeps_option handle _ _ keeps_stop λ h. make_dma_buffers-KeepsBackend info size n _)
        ]

  hand_over_dma-KeepsBackend : (hs : List Handle) → KeepsBackend (hand_over_dma p v hs)
  unfolding hand_over_dma
  hand_over_dma-KeepsBackend [] = keeps_pure
  hand_over_dma-KeepsBackend (h ∷ hs) =
      keeps_then _ _ (keeps_system (λ w. v.dup_to_aidl w h)) λ copy.
        keeps_then _ _ (keeps_system (λ w. (tt, v.handle_close w h))) λ closed.
          keeps_then _ _ (hand_over_dma-KeepsBackend hs) λ copies. keeps_pure {a = copy ∷ copies}

  dma_allocate2-KeepsBackend :
      (info : Info) (count : ℕ) → KeepsBackend (dma_allocate2 p v info count)
  unfolding dma_allocate2
  dma_allocate2-KeepsBackend info count = elim (Bool-cases (is_negative count)) [
    | inl negative ↦ rw negative keeps_stop
    | inr positive ↦ rw positive (
        keeps_then _ _ (make_dma_buffers-KeepsBackend info _ count []) λ made.
          keeps_option made _ _ keeps_pure
            λ hs. keeps_then _ _ (hand_over_dma-KeepsBackend hs) λ copies. keeps_pure)
  ]

module _ {W T : Type 0} (c : Config) (p : Platform W T) (v : Services W) where
  make_buffers-KeepsBackend :
      (desc : Descriptor) (n : ℕ) (made : List Handle) (stride : ℕ)
      → KeepsBackend (make_buffers c p v desc n made stride)
  unfolding make_buffers
  make_buffers-KeepsBackend desc zero made stride = keeps_pure
  make_buffers-KeepsBackend desc (suc n) made stride =
      keeps_then _ _ (keeps_library (gralloc_gbm_android_buffer_new c p desc)) λ r.
        keeps_option r.1 _ _
          (keeps_then _ _ (release_all-KeepsBackend p v made) λ released. keeps_pure)
          λ out.
            keeps_then _ _ (keeps_outcome _)
              λ pixels. make_buffers-KeepsBackend desc n (made ++ out.0 ∷ []) pixels

  gralloc_gbm_allocate-KeepsBackend :
      (desc : Descriptor) (count : ℕ) → KeepsBackend (gralloc_gbm_allocate c p v desc count)
  unfolding gralloc_gbm_allocate
  gralloc_gbm_allocate-KeepsBackend desc count =
      keeps_then _ _ (keeps_library (is_allocator_desc_supported c p (some desc))) λ supported.
        elim (Bool-cases (not supported)) [
          | inl refused ↦ rw refused keeps_pure
          | inr granted ↦ rw granted (elim (Bool-cases (is_negative count)) [
            | inl negative ↦ rw negative keeps_stop
            | inr positive ↦ rw positive (
                keeps_then _ _ (make_buffers-KeepsBackend desc count [] 0) λ made.
                  keeps_option made _ _ keeps_pure
                    λ out. keeps_then _ _ (hand_over-KeepsBackend p v out.0) λ copies. keeps_pure)
          ])
        ]

  gbm_allocate2-KeepsBackend :
      (info : Info) (count : ℕ) → KeepsBackend (gbm_allocate2 c p v info count)
  unfolding gbm_allocate2
  gbm_allocate2-KeepsBackend info count =
      keeps_then _ _ (keeps_library _)
        λ desc. keeps_option desc _ _ keeps_pure λ d. gralloc_gbm_allocate-KeepsBackend d count

  -- A request that a backend runs leaves the selected backend alone.
  pub backend_allocate2-KeepsBackend :
      (b : Backend) (info : Info) (count : ℕ) → KeepsBackend (backend_allocate2 c p v b info count)
  unfolding backend_allocate2
  backend_allocate2-KeepsBackend gbm info count = gbm_allocate2-KeepsBackend info count
  backend_allocate2-KeepsBackend dma_buf info count = dma_allocate2-KeepsBackend p v info count

  -- So does the question whether the GBM backend supports a request.
  pub gbm_is_supported-KeepsBackend : (info : Info) → KeepsBackend (gbm_is_supported c p v info)
  unfolding gbm_is_supported
  gbm_is_supported-KeepsBackend info = elim (Bool-cases (info.format == Pixel.blob)) [
    | inl blob ↦ rw blob keeps_pure
    | inr image ↦ rw image (
        keeps_then _ _ (keeps_library (generate_gralloc_generic_desc p info)) λ desc.
          keeps_option desc _ _ keeps_pure λ d.
            keeps_then _ _ (keeps_library (is_allocator_desc_supported c p (some d)))
              λ b. keeps_pure)
  ]
