-- ===== src/Tests/Mapped.antt =====
-- The theorems on the DMA-BUF mapper, at concrete states.
use gralloc_gbm.Base.{ℕ, ◌≡◌, refl, true, false, none, some, ◌==◌, if◌then◌else◌, arith}
use gralloc_gbm.Machine.{null, done, fault, use_after_free}
use gralloc_gbm.Hal.Usage
use gralloc_gbm.Hal.Pixel
use gralloc_gbm.Handle.{Handle}
use gralloc_gbm.Handle.Create.{fresh_handle}
use gralloc_gbm.Mapper.DmaBuf.{
  DmaInfo, mapped_at, success, DmaSystem, DmaState, buffer_info, free_buffer, lock_buffer,
  unlock_buffer, import_buffer, buffer_info_create, read_info, find_info, lock_mapped, sync_start,
  sync_type,
}
use gralloc_gbm.State.{update}
use gralloc_gbm.Mapper.Standard.{StandardMetadataType}
use gralloc_gbm.Mapper.Blobs.{blob_query_metadata}
use gralloc_gbm.Mapper.Tracked.{TracksAll, KeepsTrack}
use gralloc_gbm.Mapper.Tracked.Steps.{
  DmaReach, here, after, importing, locking, IsDmaStart, reachable-TracksAll,
}
use gralloc_gbm.Mapper.Imported.{IsImported, free_buffer_faults, synced, lock_buffer_maps}

-- The state of the system counts what it was asked for.
abbrev pub system : DmaSystem ℕ
system = record {
  calloc_fails = λ n. false;
  no_heap_left = λ w. false;
  mmap = λ w size fd. (mapped_at 4096, w);
  cpu_sync_start = λ w fd t. w;
  cpu_sync_end = λ w fd t. w;
}

abbrev pub blob : Handle
blob = record (fresh_handle (record { width = 4096; height = 1 }) Pixel.blob Usage.sw_read_often) {
  prime_fd = 8;
}

abbrev pub info : DmaInfo
info = buffer_info blob

abbrev pub empty : DmaState ℕ
empty = record {
  world = 0;
  has_allocator = true;
  imported_buffer_table = λ fd. none;
  infos = λ q. none;
  next = 5;
}

abbrev pub imported : DmaInfo → DmaState ℕ
imported i = record empty {
  imported_buffer_table = λ fd. if fd == 8 then some 5 else none;
  infos = λ q. if q == 5 then some i else none;
}

pub imported-IsImported : (i : DmaInfo) → IsImported (imported i) blob 5 i
imported-IsImported i = record { entry = refl; bi_ne = λ e. omega arith; info = refl }

free_buffer_faults_example : free_buffer blob (imported info) ≡ fault use_after_free
free_buffer_faults_example =
    free_buffer_faults (imported info) blob 5 info (imported-IsImported info)

unmapped : (info.mapped == null) ≡ true
unfolding buffer_info
unmapped = refl

lock_buffer_maps_example :
    (t : DmaState ℕ) × (lock_buffer system blob Usage.sw_read_often (imported info)
      ≡ done ((success, some 4096), t))
    × IsImported t blob 5 (record info { mapped = 4096 })
    × (lock_buffer system blob Usage.sw_read_often t
        ≡ done ((success, some 4096), synced system blob t Usage.sw_read_often))
lock_buffer_maps_example =
    lock_buffer_maps system (imported info) blob 5 info (imported-IsImported info)
      Usage.sw_read_often 4096 unmapped refl (λ e. omega arith) refl refl

-- The states after the import and after the lock.
abbrev pub with_blob : DmaState ℕ
with_blob = record empty {
  imported_buffer_table = update empty.imported_buffer_table 8 (some 5);
  infos = update empty.infos 5 (some info);
  next = 6;
}

abbrev locked_once : DmaState ℕ
locked_once = record with_blob {
  infos = update with_blob.infos 5 (some (record info { mapped = 4096 }));
}

imported_once : import_buffer system blob empty ≡ done (success, with_blob)
unfolding import_buffer buffer_info_create read_info buffer_info
imported_once = refl

locked :
    lock_buffer system blob Usage.sw_read_often with_blob ≡ done ((success, some 4096), locked_once)
unfolding lock_buffer find_info read_info lock_mapped sync_start sync_type buffer_info
locked = refl

empty-IsDmaStart : IsDmaStart empty
empty-IsDmaStart = record { allocator = refl; empty = λ fd. refl }

calls : DmaReach system empty locked_once
calls =
    after (after here (importing blob success imported_once))
      (locking blob Usage.sw_read_often (success, some 4096) locked)

reachable-TracksAll_example :
    TracksAll locked_once
    × ((h : Handle) (usage : ℕ) → KeepsTrack (lock_buffer system h usage locked_once))
    × ((h : Handle) → KeepsTrack (unlock_buffer system h locked_once))
    × ((h : Handle) (k : StandardMetadataType) → KeepsTrack (blob_query_metadata h k locked_once))
reachable-TracksAll_example = reachable-TracksAll system empty locked_once empty-IsDmaStart calls
