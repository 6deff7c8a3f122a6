-- ===== src/Platform.antt =====
-- What common/gralloc_gbm.c calls and this repository does not implement: libc's allocator and
-- files, libcutils' handles, libgbm (include/gbm.h) and uthash (include/uthash/uthash.h). It is a
-- parameter of the model. `W` is the state that libgbm and the kernel keep, and `T` the state of the
-- hash table.
pub mod Laws
use Prim.Native.String.{String}
use gralloc_gbm.Base.{ℕ, Bool, Option, List}
use gralloc_gbm.Machine.{Ptr}
use gralloc_gbm.Size.{Size}

-- `android_buffer_t`, with its address. No code writes to a buffer that stands in the table.
pub record Buffer : Type 0 where
  pub address : Ptr
  pub fd : ℕ
  pub bo : Ptr

-- What `gbm_bo_map` returns: the address, and what it leaves in `*stride` and `*map_data`.
pub record Mapping : Type 0 where
  pub address : Ptr
  pub stride : ℕ
  pub map_data : Ptr

-- `struct gbm_import_fd_modifier_data`, of the one plane that the program fills in.
pub record ImportData : Type 0 where
  pub size : Size
  pub format : ℕ
  pub fd : ℕ
  pub stride : ℕ
  pub modifier : ℕ

pub record Platform (W T : Type 0) : Type 0 where
  pub no_memory : ℕ → Bool  -- whether the n-th allocation fails
  pub open_render_node : W → ℕ × W  -- `open("/dev/dri/renderD128", …)`
  pub close_fd : W → ℕ → W
  pub handle_create : W → Bool × W  -- whether `native_handle_create` gives a handle
  pub create_device : W → ℕ → Ptr × W
  pub destroy_device : W → Ptr → W
  pub device_fd : W → Ptr → ℕ
  pub backend_name : W → Ptr → String
  pub is_format_supported : W → Ptr → (format flags : ℕ) → Bool
  pub bo_create : W → Ptr → Size → (format flags : ℕ) → Ptr × W
  pub bo_import : W → Ptr → ImportData → (flags : ℕ) → Ptr × W
  pub bo_destroy : W → Ptr → W
  pub bo_map : W → Ptr → Size → (flags : ℕ) → Mapping × W
  pub bo_unmap : W → Ptr → Ptr → W
  pub bo_width : W → Ptr → ℕ
  pub bo_height : W → Ptr → ℕ
  pub bo_stride : W → Ptr → ℕ
  pub bo_format : W → Ptr → ℕ
  pub bo_modifier : W → Ptr → ℕ
  pub bo_plane_count : W → Ptr → ℕ
  pub bo_fd : W → Ptr → ℕ × W  -- each call makes a new descriptor
  pub get_user_data : W → Ptr → Ptr
  pub set_user_data : W → Ptr → Ptr → W
  pub hash_find : T → ℕ → Option Buffer  -- HASH_FIND_INT
  pub hash_add : T → Buffer → T  -- HASH_ADD_INT
  pub hash_del : T → Buffer → T  -- HASH_DEL
  pub hash_iter : T → List Buffer  -- HASH_ITER
