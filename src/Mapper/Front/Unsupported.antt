-- ===== src/Mapper/Front/Unsupported.antt =====
-- Metadata of buffers of the DMA-BUF backend in mapper_stablec/Mapper.cpp.
use gralloc_gbm.Base.{ℕ, ◌≡◌, ◌≢◌, refl, true, false, Option, none, some, ==_ne}
use gralloc_gbm.Machine.{Ptr, null, done}
use gralloc_gbm.Platform.{Platform}
use gralloc_gbm.Mapper.Standard.{dataspace, Value, error_none, error_unsupported, code}
use gralloc_gbm.Mapper.DmaBuf.{DmaInfo, mapper_dma_is_ready}
use gralloc_gbm.Mapper.Imported.{IsImported, find_info_lem}
use gralloc_gbm.Mapper.Blobs.{ignore_standard_metadata, blob_answer, blob_query_metadata}
use gralloc_gbm.Mapper.Front.{
  mapper_gralloc_dmabuf, NativeHandle, MapperSystem, MapperState, backend_of, is_mapper_ready,
  backend_query, backend_set,
}
use gralloc_gbm.Mapper.Front.Standards.{
  NewMetadata, filled_metadata, is_bad_value, set_on, mapper_set_standard_metadata,
  provide_standard_metadata, mapper_get_standard_metadata,
}
use gralloc_gbm.Mapper.Front.Routing.{selected, on_backend_lem}
use gralloc_gbm.Mapper.Front.Session.{with_block, calloc_made}

module _ {W T V : Type 0} (p : Platform W T) (v : MapperSystem W V) where
  dma_ready_lem :
      (s : MapperState W T V)
      → s.dma.has_allocator ≡ true
      → v.dma.no_heap_left s.dma.world ≡ false
      → is_mapper_ready p v mapper_gralloc_dmabuf (selected s mapper_gralloc_dmabuf)
        ≡ done (true, selected s mapper_gralloc_dmabuf)
  unfolding is_mapper_ready mapper_dma_is_ready
  dma_ready_lem s made heaps = rw (made, heaps) refl

  module _ (s : MapperState W T V) (n : NativeHandle) (bi : Ptr) (i : DmaInfo)
      (m : IsImported s.dma n.content bi i) (routed : backend_of n.content ≡ mapper_gralloc_dmabuf)
      (made : s.dma.has_allocator ≡ true) (heaps : v.dma.no_heap_left s.dma.world ≡ false) where
    -- The state after the setting, in which only a block of the mapper is new.
    abbrev after_set : MapperState W T V
    after_set = record (selected s mapper_gralloc_dmabuf) { library = with_block p s.library }

    set_ignored :
        (new : NewMetadata)
        → p.no_memory s.library.next ≡ false
        → s.library.next ≢ null
        → mapper_set_standard_metadata p v (some n) dataspace new s ≡ done (error_none, after_set)
    unfolding mapper_set_standard_metadata set_on filled_metadata is_bad_value backend_set
        ignore_standard_metadata
    set_ignored new room ne =
        rw
          (
            on_backend_lem p v s n _ _ mapper_gralloc_dmabuf routed (dma_ready_lem s made heaps),
            calloc_made p s.library room,
            ==_ne s.library.next null ne,
          )
          refl

    get_refused :
        (dest_size : ℕ)
        → mapper_get_standard_metadata p v (some n) dataspace dest_size s
          ≡ done ((code error_unsupported, none), selected s mapper_gralloc_dmabuf)
    unfolding mapper_get_standard_metadata provide_standard_metadata backend_query
        blob_query_metadata blob_answer
    get_refused dest_size =
        rw
          (
            on_backend_lem p v s n {A = ℕ × Option Value} _ _ mapper_gralloc_dmabuf routed
                (dma_ready_lem s made heaps),
            find_info_lem s.dma n.content.prime_fd bi m.entry,
            ==_ne bi null m.bi_ne,
          )
          refl

module _ {W T V : Type 0} (p : Platform W T) (v : MapperSystem W V) (s : MapperState W T V)
    (n : NativeHandle) (bi : Ptr) (i : DmaInfo) (m : IsImported s.dma n.content bi i)
    (routed : backend_of n.content ≡ mapper_gralloc_dmabuf) (made : s.dma.has_allocator ≡ true)
    (heaps : v.dma.no_heap_left s.dma.world ≡ false) where
  -- With a ready DMA-BUF backend, and where memory lasts, setting the dataspace of an imported buffer of
  -- that backend reports success and leaves the backend's state as it was; reading it afterwards returns the positive
  -- number of an error, and no value.
  pub dma_set_ignored :
      (new : NewMetadata) (dest_size : ℕ)
      → p.no_memory s.library.next ≡ false
      → s.library.next ≢ null
      → (t : MapperState W T V) × (mapper_set_standard_metadata p v (some n) dataspace new s
          ≡ done (error_none, t))
        × (t.dma ≡ s.dma)
        × (mapper_get_standard_metadata p v (some n) dataspace dest_size t
            ≡ done ((code error_unsupported, none), t))
  dma_set_ignored new dest_size room ne = (
    after_set p v s n bi i m routed made heaps,
    set_ignored p v s n bi i m routed made heaps new room ne,
    refl,
    get_refused p v (after_set p v s n bi i m routed made heaps) n bi i m routed made heaps
        dest_size,
  )
