-- ===== src/Mapper/DmaBuf.antt =====
-- mapper_stablec/backend/MapperDmaBuf.cpp: the mapper's table of DMA-BUF buffers, their import,
-- release, lock and unlock.
use gralloc_gbm.Base.{
  ℕ, suc, ◌*◌, Bool, true, not, ◌&&◌, ◌||◌, Option, none, some, ◌==◌, if◌then◌else◌,
}
use gralloc_gbm.Base.Bits.{has}
use gralloc_gbm.Machine.{
  Ptr, null, null_deref, use_after_free, done, Action, pure, stop, ◌>>=◌, ◌>>◌, modify, gets,
}
use gralloc_gbm.Word.{u32, sign_extend}
use gralloc_gbm.Hal.Usage
use gralloc_gbm.State.{update}
use gralloc_gbm.Handle.{Handle}

-- `dma_buffer_info`; `buffer_id` is the address of the handle, for which the handle stands here.
pub record DmaInfo : Type 0 where
  pub prime_fd : ℕ
  pub buffer_id : Handle
  pub width : ℕ
  pub height : ℕ
  pub format : ℕ
  pub usage : ℕ
  pub stride : ℕ
  pub size : ℕ
  pub mapped : Ptr
  pub is_protected : Bool

-- `SyncType` of libdmabufheap.
pub data SyncType : Type 0 where
  sync_read sync_write sync_read_write : SyncType

-- What `mmap` answers: an address, or `MAP_FAILED` with an error number.
pub data MmapAnswer : Type 0 where
  mapped_at : Ptr → MmapAnswer
  map_failed : ℕ → MmapAnswer

-- A result: 0, `-EINVAL`, or `-errno`.
pub data DmaStatus : Type 0 where
  success invalid : DmaStatus
  failed_with : ℕ → DmaStatus

-- What libc and libdmabufheap do.
pub record DmaSystem (W : Type 0) : Type 0 where
  pub calloc_fails : ℕ → Bool  -- whether the n-th allocation fails
  pub no_heap_left : W → Bool  -- GetDmabufHeapList().empty()
  pub mmap : W → (size fd : ℕ) → MmapAnswer × W
  pub cpu_sync_start : W → ℕ → SyncType → W
  pub cpu_sync_end : W → ℕ → SyncType → W

-- The state of the backend: whether `allocator` exists, `importedBufferTable`, and the live
-- `buffer_info_t`.
pub record DmaState (W : Type 0) : Type 0 where
  pub world : W
  pub has_allocator : Bool
  pub imported_buffer_table : ℕ → Option Ptr
  pub infos : Ptr → Option DmaInfo
  pub next : ℕ

-- The tests of the usage that choose the kind of synchronisation.
unfoldable pub sync_type : ℕ → SyncType
sync_type usage =
    let cpu_read = has usage Usage.sw_read_often || has usage Usage.sw_read_rarely in
    let cpu_write = has usage Usage.sw_write_often || has usage Usage.sw_write_rarely in
    if cpu_read && cpu_write
    then sync_read_write
    else (if cpu_read then sync_read else (if cpu_write then sync_write else sync_read_write))

-- What `buffer_info_create` fills in. The product is one of `int32_t`, taken to wrap around.
unfoldable pub buffer_info : Handle → DmaInfo
buffer_info h = record {
  prime_fd = h.prime_fd;
  buffer_id = h;
  width = h.size.width;
  height = h.size.height;
  format = h.format;
  usage = h.usage;
  stride = h.stride;
  size = sign_extend (u32 (h.size.width * h.size.height));
  mapped = null;
  is_protected = has h.usage Usage.protected;
}

module _ {W : Type 0} where
  -- `bi->…`.
  unfoldable pub read_info : Ptr → Action (DmaState W) DmaInfo
  read_info bi s =
      if bi == null
      then stop null_deref s
      else elim (s.infos bi) [ none ↦ stop use_after_free s | some i ↦ done (i, s) ]

  -- The search in the table, whose `NULL` stands for a missing key.
  unfoldable pub find_info : ℕ → Action (DmaState W) Ptr
  find_info fd = gets λ s. elim (s.imported_buffer_table fd) [ none ↦ null | some bi ↦ bi ]

  -- `std::unordered_map::insert`, which keeps an entry that is there.
  abbrev pub insert_new : ℕ → Ptr → DmaState W → DmaState W
  insert_new fd bi s = elim (s.imported_buffer_table fd) [
    | none ↦ record s { imported_buffer_table = update s.imported_buffer_table fd (some bi) }
    | some old ↦ s
  ]

  -- `free(bi)`.
  abbrev pub free_info : Ptr → Action (DmaState W) (Unit {0})
  free_info bi = modify λ s. record s { infos = update s.infos bi none }

  -- The information is read after it has been freed.
  unfoldable pub free_buffer : Handle → Action (DmaState W) DmaStatus
  free_buffer h = do
    bi ← find_info h.prime_fd
    if bi == null then pure invalid else do
      free_info bi
      i ← read_info bi
      modify
          λ s. record s { imported_buffer_table = update s.imported_buffer_table i.prime_fd none }
      pure success

module _ {W : Type 0} (v : DmaSystem W) where
  unfoldable pub mapper_dma_is_ready : Action (DmaState W) Bool
  mapper_dma_is_ready s = done (s.has_allocator && not (v.no_heap_left s.world), s)

  unfoldable pub mapper_dma_init : Action (DmaState W) DmaStatus
  mapper_dma_init = do modify λ s. record s { has_allocator = true }; pure success

  -- The result of `calloc` is written to unchecked.
  unfoldable pub buffer_info_create : Handle → Action (DmaState W) Ptr
  buffer_info_create h s =
      if v.calloc_fails s.next || (s.next == null)
      then stop null_deref s
      else done (
        s.next,
        record s { next = suc s.next; infos = update s.infos s.next (some (buffer_info h)) },
      )

  unfoldable pub import_buffer : Handle → Action (DmaState W) DmaStatus
  import_buffer h = do
    bi ← buffer_info_create h
    if bi == null
        then pure invalid
        else do i ← read_info bi; modify λ s. insert_new i.prime_fd bi s; pure success

  -- `allocator->CpuSyncStart` and `CpuSyncEnd`.
  unfoldable pub sync_start : ℕ → SyncType → Action (DmaState W) (Unit {0})
  sync_start fd t s =
      if s.has_allocator
      then done (tt, record s { world = v.cpu_sync_start s.world fd t })
      else stop null_deref s

  unfoldable pub sync_end : ℕ → SyncType → Action (DmaState W) (Unit {0})
  sync_end fd t s =
      if s.has_allocator
      then done (tt, record s { world = v.cpu_sync_end s.world fd t })
      else stop null_deref s

  -- The part of the lock behind the mapping. The second result is what is written to `*outData`.
  unfoldable pub lock_mapped : Handle → ℕ → Ptr → Action (DmaState W) (DmaStatus × Option Ptr)
  lock_mapped h cpu_usage address =
      if has cpu_usage Usage.hw_fb
      then pure (invalid, none)
      else do sync_start h.prime_fd (sync_type cpu_usage); pure (success, some address)

  -- The usage is taken from a `uint64_t`; the region and the fence are not read. The mapping comes
  -- before the test of the usage.
  unfoldable pub lock_buffer : Handle → ℕ → Action (DmaState W) (DmaStatus × Option Ptr)
  lock_buffer h cpu_usage = do
    bi ← find_info h.prime_fd
    if bi == null then pure (invalid, none) else do
      i ← read_info bi
      if not (i.mapped == null) then lock_mapped h cpu_usage i.mapped else do
        answer ←
            λ s. let (a, w) = v.mmap s.world i.size i.prime_fd in done (a, record s { world = w })
        elim answer [
          | map_failed e ↦ pure (failed_with e, none)
          | mapped_at address ↦ do
            modify
                λ s. record s { infos = update s.infos bi (some (record i { mapped = address })) }
            lock_mapped h cpu_usage address
        ]

  -- The usage is that of the handle, not that of the lock.
  unfoldable pub unlock_buffer : Handle → Action (DmaState W) DmaStatus
  unlock_buffer h =
      if has h.usage Usage.hw_fb
      then pure invalid
      else do sync_end h.prime_fd (sync_type h.usage); pure success
