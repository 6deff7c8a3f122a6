-- ===== src/Buffer.antt =====
-- The buffers of common/gralloc_gbm.c: the check of a descriptor, and
-- gralloc_gbm_android_buffer_new, _import, _free, _query and _get_extdata. Messages are not
-- modelled; a call of libgbm among their arguments is.
pub mod Release
pub mod Creation
pub mod Made
pub mod Query
pub mod Unready
pub mod Imported
use gralloc_gbm.Base.{ℕ, ◌*◌, Bool, false, Option, none, some, ◌&&◌, ◌||◌, not, ◌==◌, if◌then◌else◌}
use gralloc_gbm.Base.Bits.{has}
use gralloc_gbm.Word.{u32, less_signed}
use gralloc_gbm.Machine.{
  of_outcome, Ptr, null, Status, ok, einval, enodev, enomem, null_deref, Outcome, Action, pure,
  stop, ◌>>=◌, ◌>>◌, gets, done, fault,
}
use gralloc_gbm.Hal.Usage
use gralloc_gbm.Gbm.Use
use gralloc_gbm.Size.{new_size, import_size}
use gralloc_gbm.Flags.{Config, bad_dumb_buffer, calculate_gbm_flags}
use gralloc_gbm.Format.{color_fmt_a2g}
use gralloc_gbm.Stride.{calculate_android_pixel_stride}
use gralloc_gbm.Platform.{Platform, Buffer}
use gralloc_gbm.Handle.{Handle, Descriptor, gralloc_handle_create}
use gralloc_gbm.State.{State, Metadata, outside, load, allocate, calloc, free_block, read_block}
use gralloc_gbm.Driver.{is_gralloc_gbm_ready, gbm_dev}
use gralloc_gbm.Table.{find_buffer_k, add_buffer, delete_buffer}
use gralloc_gbm.BoData.{gralloc_gbm_bo_user_data_init, gbm_bo_destroy}

-- `GRALLOC_GBM_WIDTH_MAX` and `GRALLOC_GBM_HEIGHT_MAX`.
abbrev pub side_max : ℕ
side_max = 16384

-- The tests of a descriptor that need neither the driver nor libgbm.
unfoldable pub is_desc_plausible : Config → Descriptor → Bool
is_desc_plausible c desc =
    let flags = calculate_gbm_flags c (u32 desc.usage) (color_fmt_a2g desc.format) in
    not (color_fmt_a2g desc.format == 0)
    && not (less_signed side_max desc.size.width || less_signed side_max desc.size.height)
    && not (desc.usage == 0)
    && not (bad_dumb_buffer flags (color_fmt_a2g desc.format))
    && not (has flags Use.cursor && has flags Use.rendering && not c.no_cursor_rendering)

-- `android_buffer_info_t`; its `name` is never set.
pub record BufferInfo : Type 0 where
  pub fd : ℕ
  pub buffer_id : Ptr
  pub width : ℕ
  pub height : ℕ
  pub layer_count : ℕ
  pub plane_count : ℕ
  pub android_format : ℕ
  pub gbm_format : ℕ
  pub modifier : ℕ
  pub usage : ℕ
  pub size : ℕ
  pub stride : ℕ
  pub is_protected : Bool
  pub metadata : Metadata

module _ {W T : Type 0} (c : Config) (p : Platform W T) where
  unfoldable pub is_allocator_desc_supported : Option Descriptor → Action (State W T) Bool
  is_allocator_desc_supported none = do ready ← is_gralloc_gbm_ready; pure false
  is_allocator_desc_supported (some desc) = do
    ready ← is_gralloc_gbm_ready
    if not ready then pure false else if not (is_desc_plausible c desc) then pure false else do
      dev ← gbm_dev
      gets λ s.
          p.is_format_supported s.world dev (color_fmt_a2g desc.format)
            (calculate_gbm_flags c (u32 desc.usage) (color_fmt_a2g desc.format))

module _ {W T : Type 0} (p : Platform W T) where
  -- The part of the allocation behind `gbm_bo_create`: the user data, the handle's last fields and
  -- the entry in the table. The last call is an argument of a message.
  unfoldable pub register_new : Handle → Ptr → Action (State W T) (Status × Option (Handle × ℕ))
  register_new h bo = do
    d ← gralloc_gbm_bo_user_data_init p bo
    if d == null then pure (einval, none) else do
      stride ← gets λ s. p.bo_stride s.world bo
      fd ← outside λ w. p.bo_fd w bo
      modifier ← gets λ s. p.bo_modifier s.world bo
      address ← allocate p
      if address == null then pure (enomem, none) else do
        let made = record h { stride = stride; prime_fd = fd; modifier = modifier }
        added ← add_buffer p (some (record { address = address; fd = fd; bo = bo }))
        logged ← outside λ w. p.bo_fd w bo
        pure (ok, some (made, stride))

  -- The part of the import behind `gbm_bo_import`, up to the entry in the table. The result of `malloc` is written to unchecked.
  unfoldable pub register_import : Handle → Ptr → Action (State W T) Status
  register_import h bo = do
    d ← gralloc_gbm_bo_user_data_init p bo
    address ← allocate p
    if address == null then stop null_deref else do
      added ← add_buffer p (some (record { address = address; fd = h.prime_fd; bo = bo }))
      pure ok

module _ {W T : Type 0} where
  -- The end of the import: `fd_data` is freed, and then read for the arguments of a message.
  unfoldable pub log_import : Ptr → Action (State W T) Status
  log_import fd_data = do free_block fd_data; read_block fd_data; pure ok

module _ {W T : Type 0} (c : Config) (p : Platform W T) where
  -- The second result is what is written to `*out_buffer_handle` and `*out_stride`.
  unfoldable pub gralloc_gbm_android_buffer_new :
      Descriptor → Action (State W T) (Status × Option (Handle × ℕ))
  gralloc_gbm_android_buffer_new desc = do
    ready ← is_gralloc_gbm_ready
    if not ready then pure (enodev, none) else do
      let gbm_format = color_fmt_a2g desc.format
      if gbm_format == 0 then pure (einval, none) else do
        let flags = calculate_gbm_flags c (u32 desc.usage) gbm_format
        let size = new_size c flags desc.format desc.size
        handle ← gralloc_handle_create p size desc.format desc.usage
        elim handle [
          | none ↦ pure (einval, none)
          | some h ↦ do
            dev ← gbm_dev
            bo ← outside λ w. p.bo_create w dev size gbm_format flags
            if bo == null then pure (einval, none) else register_new p h bo
        ]

  unfoldable pub gralloc_gbm_android_buffer_import : Handle → Action (State W T) Status
  gralloc_gbm_android_buffer_import h = do
    ready ← is_gralloc_gbm_ready
    if not ready then pure enodev else do
      fd_data ← calloc p
      if fd_data == null then pure enomem else do
        let gbm_format = color_fmt_a2g h.format
        if gbm_format == 0 then (do free_block fd_data; pure einval) else do
          let flags = calculate_gbm_flags c h.usage gbm_format
          dev ← gbm_dev
          bo ← outside λ w.
              p.bo_import w dev
                (record {
                  size = import_size c flags h.format h.size;
                  format = gbm_format;
                  fd = h.prime_fd;
                  stride = h.stride;
                  modifier = h.modifier;
                })
                flags
          if bo == null
              then (do free_block fd_data; pure einval)
              else do registered ← register_import p h bo; log_import fd_data

module _ {W T : Type 0} (p : Platform W T) where
  unfoldable pub free_found : Option Buffer → Action (State W T) Status
  free_found none = pure ok
  free_found (some b) = do gbm_bo_destroy p b.bo; deleted ← delete_buffer p (some b); pure ok

  unfoldable pub gralloc_gbm_android_buffer_free : Handle → Action (State W T) Status
  gralloc_gbm_android_buffer_free h = do
    ready ← is_gralloc_gbm_ready
    if not ready then pure enodev else do b ← find_buffer_k p h.prime_fd; free_found b

  -- The product that gives the size is one of `uint32_t`.
  unfoldable pub query_bo : Handle → Buffer → Action (State W T) (Status × Option BufferInfo)
  query_bo h b = do
    fd ← outside λ w. p.bo_fd w b.bo
    w ← gets λ s. s.world
    d ← gralloc_gbm_bo_user_data_init p b.bo
    x ← load d
    bytes ← gets λ s. p.bo_stride s.world b.bo
    stride ← of_outcome (calculate_android_pixel_stride h.format bytes)
    pure (
      ok,
      some (record {
        fd = fd;
        buffer_id = b.address;
        width = p.bo_width w b.bo;
        height = p.bo_height w b.bo;
        layer_count = 1;
        plane_count = p.bo_plane_count w b.bo;
        android_format = h.format;
        gbm_format = p.bo_format w b.bo;
        modifier = p.bo_modifier w b.bo;
        usage = h.usage;
        size = u32 (bytes * p.bo_height w b.bo);
        stride = stride;
        is_protected = has h.usage Usage.protected;
        metadata = x.metadata;
      }),
    )

  unfoldable pub query_found :
      Handle → Option Buffer → Action (State W T) (Status × Option BufferInfo)
  query_found h none = pure (einval, none)
  query_found h (some b) = if b.bo == null then pure (einval, none) else query_bo h b

  unfoldable pub gralloc_gbm_android_buffer_query :
      Handle → Action (State W T) (Status × Option BufferInfo)
  gralloc_gbm_android_buffer_query h = do b ← find_buffer_k p h.prime_fd; query_found h b

  unfoldable pub extdata_found : Option Buffer → Action (State W T) Ptr
  extdata_found none = pure null
  extdata_found (some b) = if b.bo == null then pure null else gralloc_gbm_bo_user_data_init p b.bo

  unfoldable pub gralloc_gbm_android_buffer_get_extdata : Handle → Action (State W T) Ptr
  gralloc_gbm_android_buffer_get_extdata h = do b ← find_buffer_k p h.prime_fd; extdata_found b
