-- ===== src/Mapper/Settings.antt =====
-- Setting and reading the metadata of a managed buffer by mapper_stablec/backend/MapperGrallocGbm.cpp.
use gralloc_gbm.Base.{ℕ, subst, ◌≡◌, refl, true, false, ==_refl, ==_ne, arith, Bool-cases, inl, inr}
use gralloc_gbm.Machine.{Ptr, null, ok, done}
use gralloc_gbm.Format.Depth.{HasDepth}
use gralloc_gbm.Platform.{Platform, Buffer}
use gralloc_gbm.Platform.Laws.{KeepsUserData}
use gralloc_gbm.State.{State, Metadata, BoData}
use gralloc_gbm.Handle.{Handle}
use gralloc_gbm.Table.{find_buffer_k}
use gralloc_gbm.BoData.Steps.{Changes, load_lem, put, user_data_init_lem}
use gralloc_gbm.Lock.Calls.{Manages, managed_after}
use gralloc_gbm.Lock.Run.{Runs}
use gralloc_gbm.Buffer.{extdata_found, gralloc_gbm_android_buffer_get_extdata}
use gralloc_gbm.Buffer.Query.{with_fd, answer, query_lem}
use gralloc_gbm.Mapper.Standard.{StandardMetadataType, dataspace, blend_mode, number, provided}
use gralloc_gbm.Mapper.Metadata.{
  writes_nothing, written_metadata, set_standard_metadata, gbm_answer, gbm_query_metadata,
}

pub written_lem :
    (k : StandardMetadataType) (new old : Metadata)
    → writes_nothing k ≡ true
    → written_metadata k new old ≡ old
unfolding written_metadata
written_lem k new old e = ground arith

-- What each field of a buffer's metadata is after setting the metadata of one kind to `new`: that of
-- `new` if it belongs to the kind, else that of `old`.
abbrev next_dataspace : StandardMetadataType → (new old : Metadata) → ℕ
next_dataspace StandardMetadataType.dataspace new old = new.dataspace
next_dataspace _ new old = old.dataspace

abbrev next_blend_mode : StandardMetadataType → (new old : Metadata) → ℕ
next_blend_mode StandardMetadataType.blend_mode new old = new.blend_mode
next_blend_mode _ new old = old.blend_mode

abbrev next_smpte2086 : StandardMetadataType → (new old : Metadata) → Ptr
next_smpte2086 StandardMetadataType.smpte2086 new old = new.smpte2086
next_smpte2086 _ new old = old.smpte2086

abbrev next_cta861_3 : StandardMetadataType → (new old : Metadata) → Ptr
next_cta861_3 StandardMetadataType.cta861_3 new old = new.cta861_3
next_cta861_3 _ new old = old.cta861_3

abbrev next_smpte2094_50 : StandardMetadataType → (new old : Metadata) → Ptr
next_smpte2094_50 StandardMetadataType.smpte2094_50 new old = new.smpte2094_50
next_smpte2094_50 _ new old = old.smpte2094_50

abbrev next_smpte2094_50_size : StandardMetadataType → (new old : Metadata) → ℕ
next_smpte2094_50_size StandardMetadataType.smpte2094_50 new old = new.smpte2094_50_size
next_smpte2094_50_size _ new old = old.smpte2094_50_size

abbrev pub settled : StandardMetadataType → (new old : Metadata) → Metadata
settled k new old = record {
  dataspace = next_dataspace k new old;
  blend_mode = next_blend_mode k new old;
  smpte2086 = next_smpte2086 k new old;
  cta861_3 = next_cta861_3 k new old;
  smpte2094_50 = next_smpte2094_50 k new old;
  smpte2094_50_size = next_smpte2094_50_size k new old;
}

written_settled :
    (k : StandardMetadataType) (new old : Metadata) → written_metadata k new old ≡ settled k new old
unfolding written_metadata
written_settled StandardMetadataType.dataspace new old = refl
written_settled StandardMetadataType.blend_mode new old = refl
written_settled StandardMetadataType.smpte2086 new old = refl
written_settled StandardMetadataType.cta861_3 new old = refl
written_settled StandardMetadataType.smpte2094_50 new old = refl
written_settled _ new old = refl

module _ {W T : Type 0} (p : Platform W T) (s : State W T) (h : Handle) (b : Buffer) (d : Ptr)
    (x : BoData) (m : Manages p s h b d x) where
  extdata_lem : gralloc_gbm_android_buffer_get_extdata p h s ≡ done (d, s)
  unfolding gralloc_gbm_android_buffer_get_extdata find_buffer_k extdata_found
  extdata_lem = rw (m.found, ==_ne b.bo null m.carries.bo_ne, user_data_init_lem m.carries)

  unchanged : Changes p s d x s
  unchanged = record {
    at = m.carries.holds;
    elsewhere = λ q ne. refl;
    user_data = λ bo. refl;
    table = refl;
    driver = refl;
    block = refl;
    next = refl;
  }

  changed : (y : BoData) → Changes p s d y (put s d y)
  changed y = record {
    at = rw (==_refl d);
    elsewhere = λ q ne. rw (==_ne q d ne);
    user_data = λ bo. refl;
    table = refl;
    driver = refl;
    block = refl;
    next = refl;
  }

  stored_lem :
      (k : StandardMetadataType) (new : Metadata)
      → writes_nothing k ≡ false
      → Runs p s d
          (set_standard_metadata p h k new s)
          ok
          (record x { metadata = written_metadata k new x.metadata })
  unfolding set_standard_metadata
  stored_lem k new writes =
      rw
        (
          extdata_lem,
          ==_ne d null m.carries.data_ne,
          writes,
          load_lem s x d m.carries.data_ne m.carries.holds,
        )
        (_, refl, changed _)

  written-Runs :
      (k : StandardMetadataType) (new : Metadata)
      → Runs p s d
          (set_standard_metadata p h k new s)
          ok
          (record x { metadata = written_metadata k new x.metadata })
  unfolding set_standard_metadata
  written-Runs k new = elim (Bool-cases (writes_nothing k)) [
    | inr writes ↦ stored_lem k new writes
    | inl silent ↦
        rw
          (extdata_lem, ==_ne d null m.carries.data_ne, silent, written_lem k new x.metadata silent)
          (s, refl, unchanged)
  ]

  -- Setting a metadata of a managed buffer returns 0, and changes nothing that the library keeps but
  -- the data of the buffer. There the dataspace becomes the new one if it is the dataspace that is
  -- set, and else stays as it was; likewise the blend mode, the pointers for SMPTE2086, CTA861_3 and
  -- SMPTE2094_50, and the size for SMPTE2094_50. The locks and the mapping stay as they were.
  pub set_standard_metadata-Runs :
      (k : StandardMetadataType) (new : Metadata)
      → Runs p s d
          (set_standard_metadata p h k new s)
          ok
          (record x { metadata = settled k new x.metadata })
  set_standard_metadata-Runs k new =
      subst
        (λ (y : Metadata).
          Runs p s d (set_standard_metadata p h k new s) ok (record x { metadata = y }))
        (written_settled k new x.metadata) (written-Runs k new)

  pub query_metadata_lem :
      (keeps : KeepsUserData p) (sized : HasDepth h.format) (k : StandardMetadataType)
      → gbm_query_metadata p h k s
        ≡ gbm_answer k (answer p keeps s h b d x m sized) (with_fd p keeps s h b d x m sized)
  unfolding gbm_query_metadata
  query_metadata_lem keeps sized k = rw (query_lem p keeps s h b d x m sized) refl

module _ {W T : Type 0} (p : Platform W T) (keeps : KeepsUserData p) (s : State W T) (h : Handle)
    (b : Buffer) (d : Ptr) (x : BoData) (m : Manages p s h b d x) (sized : HasDepth h.format) where
  module _ (new : Metadata) where
    -- For a format with a size, reading the dataspace of a managed buffer gives the one that was
    -- set.
    pub get-set_dataspace :
        (t : State W T) × (u : State W T) × (set_standard_metadata p h dataspace new s
          ≡ done (ok, t))
        × (gbm_query_metadata p h dataspace t ≡ done (provided (number new.dataspace), u))
    unfolding gbm_answer written_metadata
    get-set_dataspace =
        let (t, e, c) = set_standard_metadata-Runs p s h b d x m dataspace new in
        (t, _, e, query_metadata_lem p t h b d _ (managed_after m c) keeps sized dataspace)

    -- For a format with a size, reading the blend mode of a managed buffer after setting it gives
    -- the dataspace of the buffer, whatever was set.
    pub get-set_blend_mode :
        (t : State W T) × (u : State W T) × (set_standard_metadata p h blend_mode new s
          ≡ done (ok, t))
        × (gbm_query_metadata p h blend_mode t ≡ done (provided (number x.metadata.dataspace), u))
    unfolding gbm_answer written_metadata
    get-set_blend_mode =
        let (t, e, c) = set_standard_metadata-Runs p s h b d x m blend_mode new in
        (t, _, e, query_metadata_lem p t h b d _ (managed_after m c) keeps sized blend_mode)
