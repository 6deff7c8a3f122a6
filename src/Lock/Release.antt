-- ===== src/Lock/Release.antt =====
-- As many unlocks of common/gralloc_gbm.c as there are locks on a buffer.
use gralloc_gbm.Base.{ℕ, zero, suc, ◌≡◌, refl, arith}
use gralloc_gbm.Machine.{Ptr, null, Action, pure, ◌>>=◌, done}
use gralloc_gbm.Platform.{Platform, Buffer}
use gralloc_gbm.Platform.Laws.{KeepsUserData, MapsWhole}
use gralloc_gbm.State.{State, BoData}
use gralloc_gbm.Handle.{Handle}
use gralloc_gbm.Lock.{gralloc_gbm_android_buffer_unlock}
use gralloc_gbm.Lock.Count.{IsConsistent, unlock_data, unlock_data-IsConsistent}
use gralloc_gbm.Lock.Run.{answer}
use gralloc_gbm.Lock.Calls.{Manages, managed_after, gralloc_gbm_android_buffer_unlock-Runs}

-- A client that unlocks the handle `n` times.
abbrev pub unlock_times : {W T : Type 0} → Platform W T → Handle → ℕ → Action (State W T) (Unit {0})
unlock_times p h zero = pure tt
unlock_times p h (suc n) = do r ← gralloc_gbm_android_buffer_unlock p h; unlock_times p h n

-- The buffer is managed with data that is neither locked nor mapped.
abbrev pub IsUnlocked : {W T : Type 0} → Platform W T → State W T → Handle → Buffer → Ptr → Type 0
IsUnlocked p s h b d =
    (y : BoData) × Manages p s h b d y
    × (y.lock_count ≡ 0)
    × (y.locked_for ≡ 0)
    × (y.map_data ≡ null)

unlock_data-lock_count :
    (x : BoData) (n : ℕ) → x.lock_count ≡ suc n → (unlock_data x).lock_count ≡ n
unfolding unlock_data
unlock_data-lock_count x n e = ground arith

idle_unmapped : (x : BoData) → IsConsistent x → x.lock_count ≡ 0 → x.map_data ≡ null
idle_unmapped x v e = ground (arith, v.single)

module _ {W T : Type 0} (p : Platform W T) (keeps : KeepsUserData p) (maps : MapsWhole p)
    (h : Handle) (b : Buffer) (d : Ptr) where
  unlocks :
      (n : ℕ) (s : State W T) (x : BoData)
      → Manages p s h b d x
      → IsConsistent x
      → x.lock_count ≡ n
      → (t : State W T) × (unlock_times p h n s ≡ done (tt, t)) × IsUnlocked p t h b d
  unlocks zero s x m v e = (s, refl, (x, m, e, v.idle e, idle_unmapped x v e))
  unlocks (suc n) s x m v e =
      let (t, run, c) = gralloc_gbm_android_buffer_unlock-Runs p keeps s h b d x m in
      let (u, more, rest) =
        unlocks n t (unlock_data x) (managed_after m c)
          (unlock_data-IsConsistent x 0 (answer p s b.bo x 0) v) (unlock_data-lock_count x n e) in
      (u, rw run more, rest)

  -- A managed buffer with consistent data becomes free again: as many unlocks as it has locks all
  -- return, and leave it managed, without a lock, locked for nothing and not mapped.
  pub unlock_times-IsUnlocked :
      (s : State W T) (x : BoData)
      → Manages p s h b d x
      → IsConsistent x
      → (t : State W T) × (unlock_times p h x.lock_count s ≡ done (tt, t)) × IsUnlocked p t h b d
  unlock_times-IsUnlocked s x m v = unlocks x.lock_count s x m v refl
