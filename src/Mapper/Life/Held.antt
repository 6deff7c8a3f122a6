-- ===== src/Mapper/Life/Held.antt =====
-- Locking, unlocking, flushing and rereading by mapper_stablec/Mapper.cpp, in a mapper that is kept.
use gralloc_gbm.Base.{ℕ, refl, Option, none, some, ◌==◌, Bool-cases, inl, inr}
use gralloc_gbm.Word.{u32}
use gralloc_gbm.Platform.{Platform}
use gralloc_gbm.Platform.Laws.{KeepsUserData, MapsWhole}
use gralloc_gbm.Table.Entries.{IsHash}
use gralloc_gbm.Handle.{Handle}
use gralloc_gbm.Library.Start.{opened}
use gralloc_gbm.Library.Locked.{
  LockSafely, stays, asserts, overflows, lock-LockSafely, unlock-StaysSound,
}
use gralloc_gbm.Lock.{gralloc_gbm_android_buffer_lock}
use gralloc_gbm.Mapper.Blobs.{flush_locked_buffer, reread_locked_buffer}
use gralloc_gbm.Mapper.Gbm.{
  gbm_lock_buffer, gbm_unlock_buffer, gbm_flush_locked_buffer, gbm_reread_locked_buffer,
}
use gralloc_gbm.Mapper.Tracked.Kept.{lock-KeepsTrack, unlock-KeepsTrack}
use gralloc_gbm.Mapper.Front.{
  MapperBackendType, mapper_gralloc_gbm, mapper_gralloc_dmabuf, NativeHandle, MapperSystem,
  MapperState, backend_lock, backend_unlock, backend_flush, backend_reread,
}
use gralloc_gbm.Mapper.Front.Requests.{mapper_lock, mapper_unlock, mapper_flush, mapper_reread}
use gralloc_gbm.Mapper.Life.{IsKept, IsReadyFor, tracking}
use gralloc_gbm.Mapper.Life.Calls.{
  Continues, Tries, Serves, continues, LockServes, serves, Continues-pure, Tries-pure,
  on_backend-Serves, on_backend-LockServes,
}

module _ {W T V : Type 0} (p : Platform W T) (v : MapperSystem W V) (keeps : KeepsUserData p)
    (maps : MapsWhole p) (h : Handle) where
  lock-Tries :
      (usage : ℕ) (b : MapperBackendType) (u : MapperState W T V)
      → IsReadyFor p b u
      → Tries p (backend_lock p v h usage b u)
  unfolding backend_lock gbm_lock_buffer
  lock-Tries usage mapper_gralloc_gbm u ((f, w), d) =
      tried (lock-LockSafely p keeps maps u.library f w h (u32 usage))
    where
      tried :
          LockSafely p f (gralloc_gbm_android_buffer_lock p h (u32 usage) u.library)
          → Tries p (backend_lock p v h usage mapper_gralloc_gbm u)
      tried (stays (r, t, e, w')) =
          rw e (inl (_, record u { library = t }, refl, record { library = opened f w'; dma = d }))
      tried (asserts e) = rw e (inr (inl refl))
      tried (overflows e) = rw e (inr (inr refl))
  lock-Tries usage mapper_gralloc_dmabuf u (l, a) =
      let (r, t, e, a') = lock-KeepsTrack v.dma h u.dma a usage in
      rw e (inl (_, record u { dma = t }, refl, record { library = l; dma = tracking a' }))

  unlock-Continues :
      (b : MapperBackendType) (u : MapperState W T V)
      → IsReadyFor p b u
      → Continues p (backend_unlock p v h b u)
  unfolding backend_unlock gbm_unlock_buffer
  unlock-Continues mapper_gralloc_gbm u ((f, w), d) =
      let (r, t, e, w') = unlock-StaysSound p keeps maps u.library f w h in
      rw e (_, record u { library = t }, refl, record { library = opened f w'; dma = d })
  unlock-Continues mapper_gralloc_dmabuf u (l, a) =
      let (r, t, e, a') = unlock-KeepsTrack v.dma h u.dma a in
      rw e (_, record u { dma = t }, refl, record { library = l; dma = tracking a' })

  flush-Continues :
      (b : MapperBackendType) (u : MapperState W T V)
      → IsReadyFor p b u
      → Continues p (backend_flush p v h b u)
  unfolding backend_flush gbm_flush_locked_buffer flush_locked_buffer
  flush-Continues mapper_gralloc_gbm u ((f, w), d) =
      (_, u, refl, record { library = opened f w; dma = d })
  flush-Continues mapper_gralloc_dmabuf u (l, a) =
      (_, u, refl, record { library = l; dma = tracking a })

  reread-Continues :
      (b : MapperBackendType) (u : MapperState W T V)
      → IsReadyFor p b u
      → Continues p (backend_reread p v h b u)
  unfolding backend_reread gbm_reread_locked_buffer reread_locked_buffer
  reread-Continues mapper_gralloc_gbm u ((f, w), d) =
      (_, u, refl, record { library = opened f w; dma = d })
  reread-Continues mapper_gralloc_dmabuf u (l, a) =
      (_, u, refl, record { library = l; dma = tracking a })

module _ {W T V : Type 0} (p : Platform W T) (v : MapperSystem W V) (hash : IsHash p)
    (keeps : KeepsUserData p) (maps : MapsWhole p) (s : MapperState W T V) (k : IsKept p s) where
  -- A lock of any buffer for any usage returns and keeps the mapper, fails an assertion or overflows,
  -- unless the driver was freed.
  pub lock-LockServes :
      (n : Option NativeHandle) (usage : ℕ) → LockServes p s (mapper_lock p v n usage s)
  unfolding mapper_lock
  lock-LockServes none usage = serves (continues (_, s, refl, k))
  lock-LockServes (some n) usage = elim (Bool-cases (usage == 0)) [
    | inl zero_usage ↦ rw zero_usage (serves (continues (_, s, refl, k)))
    | inr other ↦ rw other (
        on_backend-LockServes p v hash n.content _ _ s k
          λ u (ready, c). Tries-pure p _ _ (lock-Tries p v keeps maps n.content usage _ u ready))
  ]

  pub unlock-Serves : (n : Option NativeHandle) → Serves p s (mapper_unlock p v n s)
  unfolding mapper_unlock
  unlock-Serves none = continues (_, s, refl, k)
  unlock-Serves (some n) =
      on_backend-Serves p v hash n.content _ _ s k
        λ u (ready, c). Continues-pure p _ _ (unlock-Continues p v keeps maps n.content _ u ready)

  -- The next two are for a buffer that is not `NULL`.
  pub flush-Serves : (n : NativeHandle) → Serves p s (mapper_flush p v (some n) s)
  unfolding mapper_flush
  flush-Serves n =
      on_backend-Serves p v hash n.content _ _ s k
        λ u (ready, c). Continues-pure p _ _ (flush-Continues p v keeps maps n.content _ u ready)

  pub reread-Serves : (n : NativeHandle) → Serves p s (mapper_reread p v (some n) s)
  unfolding mapper_reread
  reread-Serves n =
      on_backend-Serves p v hash n.content _ _ s k
        λ u (ready, c). Continues-pure p _ _ (reread-Continues p v keeps maps n.content _ u ready)
