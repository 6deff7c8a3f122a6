-- ===== src/Mapper/Tracked/Kept.antt =====
-- Each operation of mapper_stablec/backend/MapperDmaBuf.cpp but the free, in a state that tracks its
-- entries.
use gralloc_gbm.Base.{
  ℕ, suc, ◌≡◌, ◌≢◌, refl, sym, subst, eq_of_==, true, false, Option, none, some, ◌==◌,
  if◌then◌else◌, arith, ==_ne, ==_refl, Bool-cases, Option-cases, inl, inr,
}
use gralloc_gbm.Base.Bits.{has}
use gralloc_gbm.Machine.{Ptr, null, done, Action, pure, ◌>>◌, modify}
use gralloc_gbm.Hal.Usage
use gralloc_gbm.State.{update}
use gralloc_gbm.Handle.{Handle}
use gralloc_gbm.Mapper.Standard.{StandardMetadataType}
use gralloc_gbm.Mapper.DmaBuf.{
  DmaInfo, MmapAnswer, mapped_at, map_failed, DmaStatus, success, failed_with, DmaSystem, DmaState,
  SyncType, sync_type, buffer_info, insert_new, import_buffer, sync_start, sync_end, lock_mapped,
  lock_buffer, unlock_buffer,
}
use gralloc_gbm.Mapper.Blobs.{blob_query_metadata}
use gralloc_gbm.Mapper.Imported.{read_info_lem, create_lem}
use gralloc_gbm.Mapper.Tracked.Answers.{blob_answer-Answers}
use gralloc_gbm.Mapper.Tracked.{
  IsTracked, TracksAll, KeepsTrack, in_world, found_lem, missing_lem, with_info-TracksAll,
  alone_lem,
}

module _ {V : Type 0} (v : DmaSystem V) (h : Handle) where
  sync_start_lem :
      (s : DmaState V) (fd : ℕ) (t : SyncType)
      → s.has_allocator ≡ true
      → sync_start v fd t s ≡ done (tt, record s { world = v.cpu_sync_start s.world fd t })
  unfolding sync_start
  sync_start_lem s fd t e = rw e refl

  sync_end_lem :
      (s : DmaState V) (fd : ℕ) (t : SyncType)
      → s.has_allocator ≡ true
      → sync_end v fd t s ≡ done (tt, record s { world = v.cpu_sync_end s.world fd t })
  unfolding sync_end
  sync_end_lem s fd t e = rw e refl

  lock_mapped-KeepsTrack :
      (s : DmaState V) (usage : ℕ) (address : Ptr)
      → TracksAll s
      → KeepsTrack (lock_mapped v h usage address s)
  unfolding lock_mapped
  lock_mapped-KeepsTrack s usage address a = elim (Bool-cases (has usage Usage.hw_fb)) [
    | inl fb ↦ rw fb (_, s, refl, a)
    | inr other ↦
        rw (other, sync_start_lem s h.prime_fd (sync_type usage) a.allocator)
          (_, _, refl, in_world s _ a)
  ]

  pub unlock-KeepsTrack : (s : DmaState V) → TracksAll s → KeepsTrack (unlock_buffer v h s)
  unfolding unlock_buffer
  unlock-KeepsTrack s a = elim (Bool-cases (has h.usage Usage.hw_fb)) [
    | inl fb ↦ rw fb (_, s, refl, a)
    | inr other ↦
        rw (other, sync_end_lem s h.prime_fd (sync_type h.usage) a.allocator)
          (_, _, refl, in_world s _ a)
  ]

  module _ (s : DmaState V) (a : TracksAll s) where
    -- The lock behind `mmap`.
    abbrev after_mmap :
        ℕ → Ptr → DmaInfo → MmapAnswer → Action (DmaState V) (DmaStatus × Option Ptr)
    after_mmap usage bi i answer = elim answer [
      | map_failed e ↦ pure (failed_with e, none)
      | mapped_at address ↦ do
        modify λ s. record s { infos = update s.infos bi (some (record i { mapped = address })) }
        lock_mapped v h usage address
    ]

    mapping_case :
        (usage : ℕ) (bi : Ptr) (i : DmaInfo) (answer : MmapAnswer) (w : V)
        → s.imported_buffer_table h.prime_fd ≡ some bi
        → i.prime_fd ≡ h.prime_fd
        → KeepsTrack (after_mmap usage bi i answer (record s { world = w }))
    mapping_case usage bi i (map_failed e) w at about = (_, _, refl, in_world s w a)
    mapping_case usage bi i (mapped_at address) w at about =
        lock_mapped-KeepsTrack _ usage address (
          with_info-TracksAll (record s { world = w }) h.prime_fd bi (record i { mapped = address })
            (in_world s w a) at about (λ other e. alone_lem s h.prime_fd other bi a at e))

    pub lock-KeepsTrack : (usage : ℕ) → KeepsTrack (lock_buffer v h usage s)
    unfolding lock_buffer
    lock-KeepsTrack usage = elim (Option-cases (s.imported_buffer_table h.prime_fd)) [
      | inl gone ↦ rw (missing_lem s h.prime_fd gone) (_, s, refl, a)
      | inr (bi, at) ↦
          let q = a.entry h.prime_fd bi at in
          elim (Bool-cases (q.info.mapped == null)) [
            | inl fresh ↦
                rw
                  (
                    found_lem s h.prime_fd bi at,
                    ==_ne bi null q.bi_ne,
                    read_info_lem s bi q.info q.bi_ne q.holds,
                    fresh,
                  )
                  (mapping_case usage bi q.info (v.mmap s.world q.info.size q.info.prime_fd).0 _ at
                    q.about)
            | inr mapped_before ↦
                rw
                  (
                    found_lem s h.prime_fd bi at,
                    ==_ne bi null q.bi_ne,
                    read_info_lem s bi q.info q.bi_ne q.holds,
                    mapped_before,
                  )
                  (lock_mapped-KeepsTrack s usage q.info.mapped a)
          ]
    ]

    -- The information that an import makes, before it is in the table.
    abbrev created : DmaState V
    created = record s { next = suc s.next; infos = update s.infos s.next (some (buffer_info h)) }

    created-IsTracked :
        (fd : ℕ) (bi : Ptr) → s.imported_buffer_table fd ≡ some bi → IsTracked created fd bi
    created-IsTracked fd bi e =
        let q = a.entry fd bi e in
        record {
          info = q.info;
          holds = rw (==_ne bi s.next (omega (arith, q.before))) q.holds;
          bi_ne = q.bi_ne;
          before = omega (arith, q.before);
          about = q.about;
        }

    created-Holds : s.next ≢ null → IsTracked created h.prime_fd s.next
    unfolding buffer_info
    created-Holds ne = record {
      info = buffer_info h;
      holds = rw (==_refl s.next) refl;
      bi_ne = ne;
      before = omega arith;
      about = refl;
    }

    in_table :
        (g : ℕ → Option Ptr) (k : ℕ) (q : Ptr)
        → IsTracked created k q
        → IsTracked (record created { imported_buffer_table = g }) k q
    in_table g k q i = record {
      info = i.info;
      holds = i.holds;
      bi_ne = i.bi_ne;
      before = i.before;
      about = i.about;
    }

    entry_lem :
        (k : ℕ) (q : Ptr)
        → s.next ≢ null
        → update s.imported_buffer_table h.prime_fd (some s.next) k ≡ some q
        → IsTracked created k q
    entry_lem k q ne e = elim (Bool-cases (k == h.prime_fd)) [
      | inl hit ↦
          let key : k ≡ h.prime_fd = eq_of_== k h.prime_fd hit in
          let at : some s.next ≡ some q =
            subst (λ b. (if b then some s.next else s.imported_buffer_table k) ≡ some q) hit e in
          let found : s.next ≡ q = cc in
          subst (λ j. IsTracked created j q) (sym key)
            (subst (λ j. IsTracked created h.prime_fd j) found (created-Holds ne))
      | inr miss ↦
          created-IsTracked k q
            (subst (λ b. (if b then some s.next else s.imported_buffer_table k) ≡ some q) miss e)
    ]

    -- The table keeps the entry that it has, and gets one for a descriptor that is new.
    inserted-TracksAll : s.next ≢ null → TracksAll (insert_new h.prime_fd s.next created)
    inserted-TracksAll ne = elim (Option-cases (s.imported_buffer_table h.prime_fd)) [
      | inl new ↦
          rw (insert_new, new)
            record { allocator = a.allocator; entry = λ k q e. in_table _ k q (entry_lem k q ne e) }
      | inr (old, at) ↦
          rw (insert_new, at) record { allocator = a.allocator; entry = created-IsTracked }
    ]

    pub import-KeepsTrack :
        v.calloc_fails s.next ≡ false → s.next ≢ null → KeepsTrack (import_buffer v h s)
    unfolding import_buffer buffer_info
    import-KeepsTrack room ne = (
      success,
      insert_new h.prime_fd s.next created,
      rw
          (
            create_lem v s h room ne,
            ==_ne s.next null ne,
            read_info_lem created s.next (buffer_info h) ne (rw (==_refl s.next)),
          )
          refl,
      inserted-TracksAll ne,
    )

    pub query-KeepsTrack : (k : StandardMetadataType) → KeepsTrack (blob_query_metadata h k s)
    unfolding blob_query_metadata
    query-KeepsTrack k = elim (Option-cases (s.imported_buffer_table h.prime_fd)) [
      | inl gone ↦ rw (missing_lem s h.prime_fd gone) (_, s, refl, a)
      | inr (bi, at) ↦
          let q = a.entry h.prime_fd bi at in
          let (r, e) =
            blob_answer-Answers s bi q.info (read_info_lem s bi q.info q.bi_ne q.holds) k in
          (r, s, rw (found_lem s h.prime_fd bi at, ==_ne bi null q.bi_ne) e, a)
    ]
