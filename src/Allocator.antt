-- ===== src/Allocator.antt =====
-- allocator/Allocator.cpp and its backends: the data of the allocator service, its state, and what it
-- calls outside this repository.
pub mod Gbm
pub mod DmaBuf
pub mod Blobs
pub mod Outcomes
pub mod Granted
pub mod Released
pub mod Service
pub mod Kept
pub mod Main
pub mod Started
pub mod Threads
pub mod Pointers
use Prim.Native.String.{String}
use gralloc_gbm.Base.{ℕ, Bool, Option, none, some, List, ◌==◌, ◌||◌, if◌then◌else◌}
use gralloc_gbm.Machine.{Ptr, null, null_deref, Outcome, done, fault, Action, pure, stop, ◌>>=◌}
use gralloc_gbm.Word.{u32, less_signed}
use gralloc_gbm.Size.{Size}
use gralloc_gbm.Platform.{Platform}
use gralloc_gbm.State.{State, allocate}
use gralloc_gbm.Handle.{Handle, Descriptor}

-- `AllocationError`, as far as the code names it, and a binder status.
pub data AllocationError : Type 0 where
  bad_descriptor no_resources unsupported : AllocationError

pub data BinderStatus : Type 0 where
  status_ok : BinderStatus
  service_error : AllocationError → BinderStatus

-- `BufferDescriptorInfo`; of the additional options the code reads the names.
pub record Info : Type 0 where
  pub name : String
  pub size : Size
  pub layer_count : ℕ
  pub format : ℕ
  pub usage : ℕ
  pub reserved_size : ℕ
  pub option_names : List String

-- `AllocationResult`.
pub record Allocation : Type 0 where
  pub buffers : List Handle
  pub stride : ℕ

-- The two backends that `selectBackendByType` gives; each is a singleton whose state is global.
pub data Backend : Type 0 where
  gbm dma_buf : Backend

-- What libdmabufheap, libcutils and gralloc4 do.
pub record Services (W : Type 0) : Type 0 where
  pub has_no_heap : W → Bool  -- GetDmabufHeapList().empty()
  pub alloc_system : W → ℕ → ℕ × W  -- AllocSystem(true, size)
  pub dup_to_aidl : W → Handle → Handle × W
  pub handle_close : W → Handle → W  -- native_handle_close and native_handle_delete
  pub decode : List ℕ → Option Info  -- decodeBufferDescriptorInfo

-- The state of the library, the `allocator` of the DMA-BUF backend (whether it exists), and
-- `mBackend`.
pub record ServiceState (W T : Type 0) : Type 0 where
  pub library : State W T
  pub has_heaps : Bool
  pub backend : Option Backend

module _ {W T : Type 0} where
  -- A call of the library.
  abbrev pub lift_outcome :
      {A : Type 0} → ServiceState W T → Outcome (A × State W T) → Outcome (A × ServiceState W T)
  lift_outcome v (done (a, s)) = done (a, record v { library = s })
  lift_outcome v (fault e) = fault e

  abbrev pub library_call : {A : Type 0} → Action (State W T) A → Action (ServiceState W T) A
  library_call act v = lift_outcome v (act v.library)

  abbrev pub system_call : {A : Type 0} → (W → A × W) → Action (ServiceState W T) A
  system_call f v =
      let (a, w) = f v.library.world in
      done (a, record v { library = record v.library { world = w } })

module _ {W T : Type 0} (p : Platform W T) where
  -- `generateGrallocGenericDesc`, none for `-EINVAL`. The copy of the name goes to the result of
  -- `calloc`, unchecked.
  unfoldable pub generate_gralloc_generic_desc : Info → Action (State W T) (Option Descriptor)
  generate_gralloc_generic_desc info =
      if info.size.width == 0 || info.size.height == 0
      then pure none
      else if less_signed 1 info.layer_count
      then pure none
      else do
        name ← allocate p
        if name == null
            then stop null_deref
            else pure (
                some (record {
                  name = info.name;
                  size = info.size;
                  layer_count = info.layer_count;
                  format = info.format;
                  usage = u32 info.usage;
                  reserved_size = u32 info.reserved_size;
                }))
