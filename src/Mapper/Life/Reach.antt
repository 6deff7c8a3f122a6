-- ===== src/Mapper/Life/Reach.antt =====
-- Sequences of requests of mapper_stablec/Mapper.cpp from the start of the process.
use gralloc_gbm.Base.{ℕ, ◌≡◌, refl, false, none, some, Option}
use gralloc_gbm.Machine.Runs.{no_return}
use gralloc_gbm.Flags.{Config}
use gralloc_gbm.Platform.{Platform}
use gralloc_gbm.Platform.Laws.{KeepsUserData, MapsWhole}
use gralloc_gbm.Table.Entries.{IsHash}
use gralloc_gbm.Mapper.Front.{NativeHandle, MapperSystem, MapperState}
use gralloc_gbm.Mapper.Front.Requests.{mapper_lock, mapper_unlock, mapper_flush, mapper_reread}
use gralloc_gbm.Mapper.Life.{IsKept}
use gralloc_gbm.Mapper.Life.Calls.{Serves, LockServes, Serves-Keeps, LockServes-Keeps}
use gralloc_gbm.Mapper.Life.Held.{lock-LockServes, unlock-Serves, flush-Serves, reread-Serves}
use gralloc_gbm.Mapper.Life.Changed.{mapper_free-Keeps}
use gralloc_gbm.Mapper.Life.Imports.{KeepsObjects, mapper_import-Keeps}
use gralloc_gbm.Mapper.Life.Reading.{mapper_get-Keeps, get_metadata-Keeps}
use gralloc_gbm.Mapper.Life.Writing.{mapper_set-Keeps, set_metadata-Keeps}
use gralloc_gbm.Mapper.Life.Steps.{
  Request, importing, freeing, locking, unlocking, flushing, rereading, getting, getting_named,
  setting, setting_named, Requests, here, after,
}

module _ {W T V : Type 0} (c : Config) (p : Platform W T) (v : MapperSystem W V) (hash : IsHash p)
    (keeps : KeepsUserData p) (maps : MapsWhole p) (memory : (n : ℕ) → p.no_memory n ≡ false)
    (objects : KeepsObjects p v) where
  -- A request that returns keeps the mapper.
  Request-IsKept : {s t : MapperState W T V} → IsKept p s → Request c p v s t → IsKept p t
  unfolding mapper_flush mapper_reread
  Request-IsKept {s} k (importing n r e) =
      mapper_import-Keeps c p v hash keeps memory objects s k n r _ e
  Request-IsKept {s} k (freeing n r e) = mapper_free-Keeps p v hash keeps s k n r _ e
  Request-IsKept {s} k (locking n usage r e) =
      LockServes-Keeps p s _ (lock-LockServes p v hash keeps maps s k n usage) r _ e
  Request-IsKept {s} k (unlocking n r e) =
      Serves-Keeps p s _ (unlock-Serves p v hash keeps maps s k n) r _ e
  Request-IsKept k (flushing none r e) = no_return refl e
  Request-IsKept {s} k (flushing (some n) r e) =
      Serves-Keeps p s _ (flush-Serves p v hash keeps maps s k n) r _ e
  Request-IsKept k (rereading none r e) = no_return refl e
  Request-IsKept {s} k (rereading (some n) r e) =
      Serves-Keeps p s _ (reread-Serves p v hash keeps maps s k n) r _ e
  Request-IsKept {s} w (getting n k dest_size r e) =
      mapper_get-Keeps p v hash keeps s w n k dest_size r _ e
  Request-IsKept {s} w (getting_named n m dest_size r e) =
      get_metadata-Keeps p v hash keeps s w n m dest_size r _ e
  Request-IsKept {s} w (setting n k new r e plain) =
      mapper_set-Keeps p v hash keeps s w n k new plain r _ e
  Request-IsKept {s} w (setting_named n m new r e plain) =
      set_metadata-Keeps p v hash keeps s w n m new plain r _ e

  Requests-IsKept : {s t : MapperState W T V} → IsKept p s → Requests c p v s t → IsKept p t
  Requests-IsKept k here = k
  Requests-IsKept k (after r e) = Request-IsKept (Requests-IsKept k r) e

  -- A mapper is kept if: the library has no driver and nothing in its table, or the pointer to a freed
  -- driver, or is sound; and the DMA-BUF backend is idle, or every descriptor in its table leads to
  -- live information about that descriptor. From any mapper that is kept, after any sequence of
  -- imports, releases, locks, unlocks, flushes, rereads, and readings and settings of metadata that
  -- return, in which memory lasts, no HDR metadata are set, and the cloning and closing of handles
  -- leaves the user data of objects alone: the mapper is kept; every unlock of any
  -- handle, and every flush and reread of one that is not `NULL`, returns in a mapper that is kept, or
  -- reads the freed driver; and so does every lock of any handle for any usage, or it fails an
  -- assertion or overflows.
  pub reachable-IsKept :
      (s t : MapperState W T V)
      → IsKept p s
      → Requests c p v s t
      → IsKept p t
        × ((n : Option NativeHandle) (usage : ℕ) → LockServes p t (mapper_lock p v n usage t))
        × ((n : Option NativeHandle) → Serves p t (mapper_unlock p v n t))
        × ((n : NativeHandle) → Serves p t (mapper_flush p v (some n) t))
        × ((n : NativeHandle) → Serves p t (mapper_reread p v (some n) t))
  reachable-IsKept s t kept requests =
      let k = Requests-IsKept kept requests in
      (
        k,
        lock-LockServes p v hash keeps maps t k,
        unlock-Serves p v hash keeps maps t k,
        flush-Serves p v hash keeps maps t k,
        reread-Serves p v hash keeps maps t k,
      )
