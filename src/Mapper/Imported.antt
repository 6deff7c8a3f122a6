-- ===== src/Mapper/Imported.antt =====
-- Imported buffers of mapper_stablec/backend/MapperDmaBuf.cpp: importing, locking and freeing them.
use gralloc_gbm.Base.{ℕ, suc, ◌≡◌, ◌≢◌, refl, true, false, none, some, ◌==◌, ==_refl, ==_ne}
use gralloc_gbm.Base.Bits.{has}
use gralloc_gbm.Machine.{Ptr, null, use_after_free, done, fault}
use gralloc_gbm.Hal.Usage
use gralloc_gbm.State.{update}
use gralloc_gbm.Handle.{Handle}
use gralloc_gbm.Mapper.DmaBuf.{
  DmaInfo, mapped_at, success, DmaSystem, DmaState, sync_type, buffer_info, read_info, find_info,
  free_buffer, buffer_info_create, import_buffer, sync_start, lock_mapped, lock_buffer,
}

-- The handle's descriptor leads to live information `i` at `bi`.
pub record IsImported {W : Type 0} (s : DmaState W) (h : Handle) (bi : Ptr) (i : DmaInfo)
    : Type 0 where
  pub entry : s.imported_buffer_table h.prime_fd ≡ some bi
  pub bi_ne : bi ≢ null
  pub info : s.infos bi ≡ some i

module _ {W : Type 0} where
  pub read_info_lem :
      (s : DmaState W) (bi : Ptr) (i : DmaInfo)
      → bi ≢ null
      → s.infos bi ≡ some i
      → read_info bi s ≡ done (i, s)
  unfolding read_info
  read_info_lem s bi i ne e = rw (==_ne bi null ne, e)

  pub find_info_lem :
      (s : DmaState W) (fd : ℕ) (bi : Ptr)
      → s.imported_buffer_table fd ≡ some bi
      → find_info fd s ≡ done (bi, s)
  unfolding find_info
  find_info_lem s fd bi e = rw e

  freed_lem :
      (s : DmaState W) (bi : Ptr)
      → bi ≢ null
      → read_info bi (record s { infos = update s.infos bi none }) ≡ fault use_after_free
  unfolding read_info
  freed_lem s bi ne = rw (==_ne bi null ne, ==_refl bi)

  -- Freeing an imported buffer always reads its information after it has been freed.
  pub free_buffer_faults :
      (s : DmaState W) (h : Handle) (bi : Ptr) (i : DmaInfo)
      → IsImported s h bi i
      → free_buffer h s ≡ fault use_after_free
  unfolding free_buffer
  free_buffer_faults s h bi i m =
      rw (find_info_lem s h.prime_fd bi m.entry, ==_ne bi null m.bi_ne, freed_lem s bi m.bi_ne)

module _ {W : Type 0} (v : DmaSystem W) (h : Handle) where
  -- The state after the start of the synchronisation that a lock asks for.
  abbrev pub synced : DmaState W → ℕ → DmaState W
  synced u usage = record u { world = v.cpu_sync_start u.world h.prime_fd (sync_type usage) }

module _ {W : Type 0} (v : DmaSystem W) (s : DmaState W) (h : Handle) where
  pub create_lem :
      v.calloc_fails s.next ≡ false
      → s.next ≢ null
      → buffer_info_create v h s
        ≡ done (
          s.next,
          record s { next = suc s.next; infos = update s.infos s.next (some (buffer_info h)) },
        )
  unfolding buffer_info_create
  create_lem room ne = rw (room, ==_ne s.next null ne)

  -- Where memory lasts, importing a handle whose descriptor is new returns 0, and the descriptor then
  -- leads to the information that the handle gives.
  pub import_buffer-IsImported :
      v.calloc_fails s.next ≡ false
      → s.next ≢ null
      → s.imported_buffer_table h.prime_fd ≡ none
      → (t : DmaState W) × (import_buffer v h s ≡ done (success, t))
        × IsImported t h s.next (buffer_info h)
  unfolding import_buffer buffer_info
  import_buffer-IsImported room ne new =
      let created = record s {
        next = suc s.next;
        infos = update s.infos s.next (some (buffer_info h));
      } in
      (
        record created {
          imported_buffer_table = update s.imported_buffer_table h.prime_fd (some s.next);
        },
        rw
            (
              create_lem room ne,
              ==_ne s.next null ne,
              read_info_lem created s.next (buffer_info h) ne (rw (==_refl s.next)),
              new,
            )
            refl,
        record { entry = rw (==_refl h.prime_fd); bi_ne = ne; info = rw (==_refl s.next) },
      )

  lock_mapped_lem :
      (u : DmaState W) (usage : ℕ) (address : Ptr)
      → u.has_allocator ≡ true
      → has usage Usage.hw_fb ≡ false
      → lock_mapped v h usage address u ≡ done ((success, some address), synced v h u usage)
  unfolding lock_mapped sync_start
  lock_mapped_lem u usage address a fb = rw (fb, a) refl

  module _ (bi : Ptr) (i : DmaInfo) (m : IsImported s h bi i) where
    -- A buffer that is mapped is not mapped again: a lock gives the address that it has.
    lock_buffer_mapped :
        (usage : ℕ)
        → i.mapped ≢ null
        → s.has_allocator ≡ true
        → has usage Usage.hw_fb ≡ false
        → lock_buffer v h usage s ≡ done ((success, some i.mapped), synced v h s usage)
    unfolding lock_buffer
    lock_buffer_mapped usage ne a fb = rw (
      find_info_lem s h.prime_fd bi m.entry,
      ==_ne bi null m.bi_ne,
      read_info_lem s bi i m.bi_ne m.info,
      ==_ne i.mapped null ne,
      lock_mapped_lem s usage i.mapped a fb,
    )

module _ {W : Type 0} (v : DmaSystem W) (s : DmaState W) (h : Handle) (bi : Ptr) (i : DmaInfo)
    (m : IsImported s h bi i) where
  -- Where the backend has its allocator, `mmap` succeeds and the usage is not that of a frame buffer:
  -- the first lock of an imported buffer maps it and gives the address; the buffer stays imported with
  -- that address in its information, and a second lock for the same usage gives the same address
  -- without mapping the buffer again.
  pub lock_buffer_maps :
      (usage : ℕ) (address : Ptr)
      → (i.mapped == null) ≡ true
      → (v.mmap s.world i.size i.prime_fd).0 ≡ mapped_at address
      → address ≢ null
      → s.has_allocator ≡ true
      → has usage Usage.hw_fb ≡ false
      → (t : DmaState W) × (lock_buffer v h usage s ≡ done ((success, some address), t))
        × IsImported t h bi (record i { mapped = address })
        × (lock_buffer v h usage t ≡ done ((success, some address), synced v h t usage))
  unfolding lock_buffer
  lock_buffer_maps usage address fresh answer ne a fb =
      let u = record s {
        world = (v.mmap s.world i.size i.prime_fd).1;
        infos = update s.infos bi (some (record i { mapped = address }));
      } in
      let after : IsImported (synced v h u usage) h bi (record i { mapped = address }) = record {
        entry = m.entry;
        bi_ne = m.bi_ne;
        info = rw (==_refl bi);
      } in
      (
        synced v h u usage,
        rw
            (
              find_info_lem s h.prime_fd bi m.entry,
              ==_ne bi null m.bi_ne,
              read_info_lem s bi i m.bi_ne m.info,
              fresh,
              answer,
              lock_mapped_lem v s h u usage address a fb,
            )
            refl,
        after,
        lock_buffer_mapped v (synced v h u usage) h bi (record i { mapped = address }) after usage
            ne a fb,
      )
