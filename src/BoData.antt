-- ===== src/BoData.antt =====
-- The data that common/gralloc_gbm.c hangs on a buffer object: `gbm_bo_data_t`, its mapping, and its
-- destruction.
pub mod Steps
use gralloc_gbm.Base.{ℕ, ◌*◌, Bool, Option, none, some, bit_or, ◌==◌, not, if◌then◌else◌}
use gralloc_gbm.Machine.{
  Ptr, null, Status, ok, einval, enomem, assertion_failed, Action, pure, stop, ◌>>=◌, ◌>>◌, gets,
  done,
}
use gralloc_gbm.Gbm.Use
use gralloc_gbm.Size.{Size}
use gralloc_gbm.Platform.{Platform, Mapping}
use gralloc_gbm.State.{
  State, BoData, update, outside, load, store, free_block, calloc, calloc_bo_data,
}

module _ {W T : Type 0} where
  -- Callback for `gbm_bo_set_user_data()`. The block behind `smpte2094_50` is not freed.
  unfoldable pub gralloc_gbm_bo_data_destroy : Ptr → Action (State W T) (Unit {0})
  gralloc_gbm_bo_data_destroy d = do
    x ← load d
    free_block x.metadata.smpte2086
    free_block x.metadata.cta861_3
    λ s. done (tt, record s { bo_data = update s.bo_data d none })

module _ {W T : Type 0} (p : Platform W T) where
  unfoldable pub get_user_data : Ptr → Action (State W T) Ptr
  get_user_data bo = gets λ s. p.get_user_data s.world bo

  -- New data with its three blocks. The result of the first `calloc` is written to unchecked.
  unfoldable pub new_user_data : Ptr → Action (State W T) Ptr
  new_user_data bo = do
    d ← calloc_bo_data p
    x ← load d
    smpte2086 ← calloc p
    cta861_3 ← calloc p
    smpte2094_50 ← calloc p
    let m = record x.metadata {
      smpte2086 = smpte2086;
      cta861_3 = cta861_3;
      smpte2094_50 = smpte2094_50;
      smpte2094_50_size = 0;
    }
    store d (record x { metadata = m })
    outside λ w. (tt, p.set_user_data w bo d)
    pure d

  unfoldable pub gralloc_gbm_bo_user_data_init : Ptr → Action (State W T) Ptr
  gralloc_gbm_bo_user_data_init bo =
      if bo == null
      then pure null
      else do d ← get_user_data bo; if d == null then new_user_data bo else pure d

  -- `gbm_bo_destroy`, which runs the callback on the user data if there is any.
  unfoldable pub gbm_bo_destroy : Ptr → Action (State W T) (Unit {0})
  gbm_bo_destroy bo = do
    d ← get_user_data bo
    if d == null then pure tt else gralloc_gbm_bo_data_destroy d
    outside λ w. (tt, p.bo_destroy w bo)

  -- The status, and what is written to `*addr`, if anything is. `gbm_bo_map` itself writes
  -- `bo_data->map_data`.
  unfoldable pub gralloc_gbm_bo_map : Ptr → Bool → Action (State W T) (Status × Option Ptr)
  gralloc_gbm_bo_map bo enable_write = if bo == null then pure (einval, none) else do
    d ← get_user_data bo
    x ← load d
    if not (x.map_data == null) then pure (einval, none) else do
      size ← gets λ s. record { width = p.bo_width s.world bo; height = p.bo_height s.world bo }
      m ← outside λ w.
          p.bo_map w bo size (
            if enable_write then bit_or Use.transfer_read Use.transfer_write else Use.transfer_read)
      store d (record x { map_data = m.map_data })
      stride ← gets λ s. p.bo_stride s.world bo
      if m.address == null
          then pure (enomem, some null)
          else if m.stride == stride
          then pure (ok, some m.address)
          else stop assertion_failed

  unfoldable pub gralloc_gbm_bo_unmap : Ptr → Action (State W T) (Unit {0})
  gralloc_gbm_bo_unmap bo = do
    d ← get_user_data bo
    x ← load d
    outside λ w. (tt, p.bo_unmap w bo x.map_data)
    store d (record x { map_data = null })
