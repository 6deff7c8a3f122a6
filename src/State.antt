-- ===== src/State.antt =====
-- The state of common/gralloc_gbm.c: its two globals, the objects that it allocates, and the
-- platform's state. An address is given out once: the n-th allocation returns n or fails.
use Prim.Native.String.{String}
use gralloc_gbm.Base.{ℕ, suc, Bool, true, false, Option, none, some, ◌==◌, if◌then◌else◌}
use gralloc_gbm.Machine.{Ptr, null, null_deref, use_after_free, Action, stop, modify, done}
use gralloc_gbm.Platform.{Platform}

-- `gralloc_gbm_driver_t`.
pub record Driver : Type 0 where
  pub ready : Bool
  pub dri_fd : ℕ
  pub gbm_dev : Ptr
  pub gbm_dev_fd : ℕ
  pub gbm_backend_name : String

-- `g_driver`: `NULL`, a live object, or the address of an object that has been freed.
pub data DriverPtr : Type 0 where
  no_driver : DriverPtr
  live : Driver → DriverPtr
  dangling : DriverPtr

-- `buffer_metadata_t`; the contents behind its pointers are not read here.
pub record Metadata : Type 0 where
  pub dataspace : ℕ
  pub blend_mode : ℕ
  pub smpte2086 : Ptr
  pub cta861_3 : Ptr
  pub smpte2094_50_size : ℕ
  pub smpte2094_50 : Ptr

-- `gbm_bo_data_t`.
pub record BoData : Type 0 where
  pub map_data : Ptr
  pub lock_count : ℕ
  pub locked_for : ℕ
  pub metadata : Metadata

pub record State (W T : Type 0) : Type 0 where
  pub world : W
  pub table : T  -- android_buffer_table
  pub driver : DriverPtr  -- g_driver
  pub bo_data : Ptr → Option BoData  -- the live `gbm_bo_data_t`
  pub block : Ptr → Bool  -- the live blocks of other kinds
  pub next : ℕ  -- the number of the next allocation

abbrev pub update {ℓ} : {A : Type ℓ} → (Ptr → A) → Ptr → A → Ptr → A
update f p v q = if q == p then v else f q

abbrev pub empty_metadata : Metadata
empty_metadata = record {
  dataspace = 0;
  blend_mode = 0;
  smpte2086 = null;
  cta861_3 = null;
  smpte2094_50_size = 0;
  smpte2094_50 = null;
}

-- What `calloc` fills in.
abbrev pub empty_bo_data : BoData
empty_bo_data = record {
  map_data = null;
  lock_count = 0;
  locked_for = 0;
  metadata = empty_metadata;
}

module _ {W T : Type 0} where
  -- `bo_data->…`: a fault at `NULL` and at an object that is not live.
  unfoldable pub load : Ptr → Action (State W T) BoData
  load d s =
      if d == null
      then stop null_deref s
      else elim (s.bo_data d) [ none ↦ stop use_after_free s | some x ↦ done (x, s) ]

  abbrev pub store : Ptr → BoData → Action (State W T) (Unit {0})
  store d x = modify λ s. record s { bo_data = update s.bo_data d (some x) }

  -- An operation of the platform on its own state.
  abbrev pub outside : {A : Type 0} → (W → A × W) → Action (State W T) A
  outside f s = let (a, w) = f s.world in done (a, record s { world = w })

  -- `free` of a block; freeing `NULL` does nothing.
  unfoldable pub free_block : Ptr → Action (State W T) (Unit {0})
  free_block b s =
      if b == null
      then done (tt, s)
      else (if s.block b
          then done (tt, record s { block = update s.block b false })
          else stop use_after_free s)

  -- A read behind a pointer to a block, whose contents are not modelled.
  unfoldable pub read_block : Ptr → Action (State W T) (Unit {0})
  read_block q s =
      if q == null
      then stop null_deref s
      else (if s.block q then done (tt, s) else stop use_after_free s)

module _ {W T : Type 0} (p : Platform W T) where
  -- `calloc` or `malloc` of an object that the model keeps elsewhere: its address, or `NULL`.
  unfoldable pub allocate : Action (State W T) Ptr
  allocate s =
      let t = record s { next = suc s.next } in
      if p.no_memory s.next then done (null, t) else done (s.next, t)

  -- `calloc` of a block whose contents are not modelled.
  unfoldable pub calloc : Action (State W T) Ptr
  calloc s =
      if p.no_memory s.next
      then done (null, record s { next = suc s.next })
      else done (s.next, record s { next = suc s.next; block = update s.block s.next true })

  -- `calloc(1, sizeof(gbm_bo_data_t))`.
  unfoldable pub calloc_bo_data : Action (State W T) Ptr
  calloc_bo_data s =
      if p.no_memory s.next
      then done (null, record s { next = suc s.next })
      else done (
        s.next,
        record s { next = suc s.next; bo_data = update s.bo_data s.next (some empty_bo_data) },
      )
