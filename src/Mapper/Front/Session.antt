-- ===== src/Mapper/Front/Session.antt =====
-- Requests to the mapper of mapper_stablec/Mapper.cpp one after the other, on buffers of the GBM
-- backend.
use gralloc_gbm.Base.{ℕ, suc, ◌≡◌, ◌≢◌, refl, true, false, Option, some, ==_ne, if◌then◌else◌}
use gralloc_gbm.Machine.{Ptr, null, done}
use gralloc_gbm.Word.{is_negative}
use gralloc_gbm.Format.Depth.{HasDepth}
use gralloc_gbm.Platform.{Platform, Buffer}
use gralloc_gbm.Platform.Laws.{KeepsUserData}
use gralloc_gbm.State.{State, BoData, Metadata, empty_metadata, update, calloc}
use gralloc_gbm.Handle.{Handle}
use gralloc_gbm.Lock.Calls.{Manages, managed_after}
use gralloc_gbm.Buffer.Query.{with_fd}
use gralloc_gbm.Mapper.Standard.{dataspace, Value, number, error_none, error_no_resources, code}
use gralloc_gbm.Mapper.Metadata.{gbm_answer, written_metadata}
use gralloc_gbm.Mapper.Settings.{set_standard_metadata-Runs, query_metadata_lem}
use gralloc_gbm.Mapper.Front.{
  mapper_gralloc_gbm, NativeHandle, MapperSystem, MapperState, backend_of, backend_query,
  backend_set,
}
use gralloc_gbm.Mapper.Front.Standards.{
  NewMetadata, filled_metadata, is_bad_value, set_on, mapper_set_standard_metadata,
  provide_standard_metadata, mapper_get_standard_metadata,
}
use gralloc_gbm.Mapper.Front.Routing.{with_library, on_backend_lem, gbm_ready_lem}

module _ {W T : Type 0} (p : Platform W T) (s : State W T) where
  -- The state after a successful `calloc`.
  abbrev pub with_block : State W T
  with_block = record s { next = suc s.next; block = update s.block s.next true }

  pub calloc_made : p.no_memory s.next ≡ false → calloc p s ≡ done (s.next, with_block)
  unfolding calloc
  calloc_made room = rw room

  pub with_block-Manages :
      (h : Handle) (b : Buffer) (d : Ptr) (x : BoData)
      → Manages p s h b d x
      → Manages p with_block h b d x
  with_block-Manages h b d x m = record {
    driver = m.driver;
    is_live = m.is_live;
    is_ready = m.is_ready;
    found = m.found;
    carries = record {
      bo_ne = m.carries.bo_ne;
      data_ne = m.carries.data_ne;
      points = m.carries.points;
      holds = m.carries.holds;
    };
  }

module _ {W T V : Type 0} (p : Platform W T) (v : MapperSystem W V) (s : MapperState W T V)
    (n : NativeHandle) (b : Buffer) (d : Ptr) (x : BoData) (m : Manages p s.library n.content b d x)
    (routed : backend_of n.content ≡ mapper_gralloc_gbm) where
  -- What the mapper sets a dataspace to.
  abbrev new_dataspace : NewMetadata → Metadata
  new_dataspace new = record empty_metadata { dataspace = new.number }

  set_dataspace_lem :
      (new : NewMetadata)
      → p.no_memory s.library.next ≡ false
      → s.library.next ≢ null
      → (t : State W T) × (mapper_set_standard_metadata p v (some n) dataspace new s
          ≡ done (error_none, with_library s t))
        × Manages p t n.content b d
            (record x { metadata = record x.metadata { dataspace = new.number } })
  unfolding mapper_set_standard_metadata set_on filled_metadata is_bad_value backend_set
      written_metadata
  set_dataspace_lem new room ne =
      let m1 = with_block-Manages p s.library n.content b d x m in
      let (t, e, c) =
        set_standard_metadata-Runs p (with_block p s.library) n.content b d x m1 dataspace
          (new_dataspace new) in
      (
        t,
        rw
            (
              on_backend_lem p v s n _ _ mapper_gralloc_gbm routed
                  (gbm_ready_lem p v s n b d x m routed),
              calloc_made p s.library room,
              ==_ne s.library.next null ne,
              e,
            )
            refl,
        managed_after m1 c,
      )

-- What the mapper answers for a value that is provided.
abbrev pub provided_result : {W V : Type 0} → MapperSystem W V → Value → (dest_size : ℕ) → ℕ
provided_result v x dest_size =
    if is_negative (v.provide x dest_size) then code error_no_resources else v.provide x dest_size

module _ {W T V : Type 0} (p : Platform W T) (v : MapperSystem W V) (keeps : KeepsUserData p)
    (s : MapperState W T V) (n : NativeHandle) (b : Buffer) (d : Ptr) (x : BoData)
    (m : Manages p s.library n.content b d x) (routed : backend_of n.content ≡ mapper_gralloc_gbm)
    (sized : HasDepth n.content.format) where
  get_dataspace_lem :
      (dest_size : ℕ)
      → let value = number x.metadata.dataspace in
        (u : State W T) × (mapper_get_standard_metadata p v (some n) dataspace dest_size s
          ≡ done ((provided_result v value dest_size, some value), with_library s u))
  unfolding mapper_get_standard_metadata provide_standard_metadata backend_query gbm_answer
  get_dataspace_lem dest_size = (
    with_fd p keeps s.library n.content b d x m sized,
    rw
        (
          on_backend_lem p v s n {A = ℕ × Option Value} _ _ mapper_gralloc_gbm routed
              (gbm_ready_lem p v s n b d x m routed),
          query_metadata_lem p s.library n.content b d x m keeps sized dataspace,
        )
        refl,
  )

module _ {W T V : Type 0} (p : Platform W T) (v : MapperSystem W V) (keeps : KeepsUserData p)
    (s : MapperState W T V) (n : NativeHandle) (b : Buffer) (d : Ptr) (x : BoData)
    (m : Manages p s.library n.content b d x) (routed : backend_of n.content ≡ mapper_gralloc_gbm)
    (sized : HasDepth n.content.format) where
  -- For a managed buffer of the GBM backend whose format has a size, and where memory lasts, setting
  -- the dataspace through the mapper succeeds, and reading it through the mapper afterwards provides
  -- the number that was set.
  pub mapper_get-set_dataspace :
      (new : NewMetadata) (dest_size : ℕ)
      → p.no_memory s.library.next ≡ false
      → s.library.next ≢ null
      → (t : MapperState W T V) × (u : MapperState W T V) × (mapper_set_standard_metadata p v
            (some n)
            dataspace
            new
            s
          ≡ done (error_none, t))
        × (mapper_get_standard_metadata p v (some n) dataspace dest_size t
            ≡ done ((provided_result v (number new.number) dest_size, some (number new.number)), u))
  mapper_get-set_dataspace new dest_size room ne =
      let (t, e, after) = set_dataspace_lem p v s n b d x m routed new room ne in
      let (u, e') =
        get_dataspace_lem p v keeps (with_library s t) n b d _ after routed sized dest_size in
      (with_library s t, with_library s u, e, e')
