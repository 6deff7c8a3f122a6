-- ===== src/Handle/Create.antt =====
-- gralloc_handle_create of include/drm/android/gralloc_handle.h where libcutils gives a handle.
use gralloc_gbm.Base.{ℕ, ◌-◌, ◌^◌, ◌≡◌, true, some}
use gralloc_gbm.Machine.{done}
use gralloc_gbm.Word.{u32}
use gralloc_gbm.Size.{Size}
use gralloc_gbm.Platform.{Platform}
use gralloc_gbm.State.{State}
use gralloc_gbm.Handle.{Handle, handle_magic, handle_version, gralloc_handle_create}

-- The handle that is made.
abbrev pub fresh_handle : Size → (format usage : ℕ) → Handle
fresh_handle size format usage = record {
  prime_fd = 2 ^ 32 - 1;
  magic = handle_magic;
  version = handle_version;
  size = size;
  format = format;
  usage = u32 usage;
  stride = 0;
  modifier = 0;
}

pub handle_create_lem :
    {W T : Type 0} (p : Platform W T) (s : State W T) (size : Size) (format usage : ℕ)
    → (p.handle_create s.world).0 ≡ true
    → gralloc_handle_create p size format usage s
      ≡ done
          (some (fresh_handle size format usage), record s { world = (p.handle_create s.world).1 })
unfolding gralloc_handle_create
handle_create_lem p s size format usage e = rw e
