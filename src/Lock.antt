-- ===== src/Lock.antt =====
-- gralloc_gbm_android_buffer_lock and gralloc_gbm_android_buffer_unlock of common/gralloc_gbm.c.
pub mod Count
pub mod Run
pub mod Calls
pub mod Sequences
pub mod Release
use gralloc_gbm.Base.{
  ℕ, suc, ◌-◌, ◌+◌, ◌^◌, Bool, true, false, Option, none, some, ◌&&◌, not, bit_and, bit_or, ◌==◌,
  if◌then◌else◌,
}
use gralloc_gbm.Base.Bits.{has}
use gralloc_gbm.Machine.{
  Ptr, null, Status, ok, einval, enodev, is_ok, Action, pure, ◌>>=◌, ◌>>◌, gets, done, stop,
  signed_overflow,
}
use gralloc_gbm.Hal.Usage
use gralloc_gbm.Platform.{Platform, Buffer}
use gralloc_gbm.Handle.{Handle}
use gralloc_gbm.State.{State, BoData, load, store}
use gralloc_gbm.Driver.{is_gralloc_gbm_ready}
use gralloc_gbm.Table.{find_buffer_k}
use gralloc_gbm.BoData.{
  get_user_data, gralloc_gbm_bo_user_data_init, gralloc_gbm_bo_map, gralloc_gbm_bo_unmap,
}

-- `GRALLOC_USAGE_SW_WRITE_MASK | GRALLOC_USAGE_SW_READ_MASK`.
abbrev pub sw_mask : ℕ
sw_mask = bit_or Usage.sw_write_mask Usage.sw_read_mask

-- The guard that keeps the CPU off buffers that were not made for it: `made` is the usage that the
-- buffer was made with.
unfoldable pub is_refused : (made usage : ℕ) → Bool
is_refused made usage =
    not (bit_and made usage == usage)
    && (not (has made (bit_or Usage.sw_read_often Usage.sw_write_often))
        && not (has made Usage.hw_fb)
        && not (has made Usage.hw_texture))

-- A lock on top of other locks must ask for no more than they hold.
unfoldable pub is_incompatible : BoData → ℕ → Bool
is_incompatible x usage = not (x.lock_count == 0) && not (bit_and x.locked_for usage == usage)

-- `INT_MAX`.
abbrev pub int_max : ℕ
int_max = 2 ^ 31 - 1

module _ {W T : Type 0} where
  -- The last lines of the lock: the count, an `int`, and the usages held.
  unfoldable pub count_lock : Ptr → ℕ → Action (State W T) (Unit {0})
  count_lock d usage = do
    x ← load d
    if x.lock_count == int_max
        then stop signed_overflow
        else store d
            (record x { lock_count = suc x.lock_count; locked_for = bit_or x.locked_for usage })

  -- The last lines of the unlock.
  unfoldable pub count_unlock : Ptr → Action (State W T) (Unit {0})
  count_unlock d = do
    x ← load d
    let n = x.lock_count - 1
    store d (record x { lock_count = n; locked_for = if n == 0 then 0 else x.locked_for })

module _ {W T : Type 0} (p : Platform W T) where
  -- The part of the lock behind the search for the buffer. The second result is what is written to
  -- `*out`, if anything is.
  unfoldable pub lock_bo : Ptr → ℕ → Action (State W T) (Status × Option Ptr)
  lock_bo bo usage = do
    d ← gralloc_gbm_bo_user_data_init p bo
    x ← load d
    if is_incompatible x usage then pure (einval, none) else do
      let wanted = bit_or usage x.locked_for
      if has wanted sw_mask
          then (do
            (err, out) ← gralloc_gbm_bo_map p bo (has wanted Usage.sw_write_mask)
            if is_ok err then (do count_lock d wanted; pure (ok, out)) else pure (err, out))
          else (do count_lock d wanted; pure (ok, none))

  unfoldable pub lock_found : Option Buffer → ℕ → Action (State W T) (Status × Option Ptr)
  lock_found none usage = pure (einval, none)
  lock_found (some b) usage = lock_bo b.bo usage

  -- The rectangle is not read. `usage` is a 32-bit pattern.
  unfoldable pub gralloc_gbm_android_buffer_lock :
      Handle → ℕ → Action (State W T) (Status × Option Ptr)
  gralloc_gbm_android_buffer_lock h usage = do
    ready ← is_gralloc_gbm_ready
    if not ready
        then pure (enodev, none)
        else if has usage Usage.hw_fb
        then pure (einval, none)
        else if is_refused h.usage usage
        then pure (einval, none)
        else do b ← find_buffer_k p h.prime_fd; lock_found b usage

  unfoldable pub unlock_bo : Ptr → Action (State W T) Status
  unlock_bo bo = if bo == null then pure einval else do
    d ← get_user_data p bo
    x ← load d
    if x.lock_count == 0 then pure ok else do
      if has x.locked_for sw_mask then gralloc_gbm_bo_unmap p bo else pure tt
      count_unlock d
      pure ok

  unfoldable pub unlock_found : Option Buffer → Action (State W T) Status
  unlock_found none = pure einval
  unlock_found (some b) = unlock_bo b.bo

  unfoldable pub gralloc_gbm_android_buffer_unlock : Handle → Action (State W T) Status
  gralloc_gbm_android_buffer_unlock h = do b ← find_buffer_k p h.prime_fd; unlock_found b
