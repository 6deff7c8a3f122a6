-- ===== src/Handle.antt =====
-- `gralloc_handle_t` of include/drm/android/gralloc_handle.h and the descriptor of
-- include/gralloc_generic.h. `data_owner` and `data` are written by no code here, and the clients
-- see the handle as a value: nothing changes it once it has been returned.
pub mod Create
use Prim.Native.String.{String}
use gralloc_gbm.Base.{ℕ, ◌-◌, ◌^◌, Option, none, some, if◌then◌else◌}
use gralloc_gbm.Machine.{Action, pure, ◌>>=◌}
use gralloc_gbm.Word.{u32}
use gralloc_gbm.Size.{Size}
use gralloc_gbm.Platform.{Platform}
use gralloc_gbm.State.{State, outside}

pub record Handle : Type 0 where
  pub prime_fd : ℕ
  pub magic : ℕ
  pub version : ℕ
  pub size : Size
  pub format : ℕ
  pub usage : ℕ
  pub stride : ℕ
  pub modifier : ℕ

abbrev pub handle_version : ℕ
handle_version = 4

abbrev pub handle_magic : ℕ
handle_magic = 0x60585350

-- `allocator_desc_t`; `usage` and `reserved_size` are 64-bit patterns.
pub record Descriptor : Type 0 where
  pub name : String
  pub size : Size
  pub layer_count : ℕ
  pub format : ℕ
  pub usage : ℕ
  pub reserved_size : ℕ

module _ {W T : Type 0} (p : Platform W T) where
  -- The handle, or none for `nullptr`. `usage` is converted to an `int32_t`.
  unfoldable pub gralloc_handle_create :
      Size → (format usage : ℕ) → Action (State W T) (Option Handle)
  gralloc_handle_create size format usage = do
    made ← outside p.handle_create
    pure (
        if made
        then some (record {
          prime_fd = 2 ^ 32 - 1;
          magic = handle_magic;
          version = handle_version;
          size = size;
          format = format;
          usage = u32 usage;
          stride = 0;
          modifier = 0;
        })
        else none)
