-- ===== src/Mapper/Front/Routing.antt =====
-- How the mapper of mapper_stablec/Mapper.cpp reaches the library: the requests on a handle of the
-- GBM backend whose buffer is managed.
use gralloc_gbm.Base.{◌≢◌, ℕ, ◌≡◌, refl, true, Option, none, some, ==_ne}
use gralloc_gbm.Machine.{Ptr, Status, Fault, is_ok, done, fault, Action}
use gralloc_gbm.Word.{u32}
use gralloc_gbm.Platform.{Platform, Buffer}
use gralloc_gbm.Platform.Laws.{KeepsUserData}
use gralloc_gbm.State.{State, BoData, Driver, live}
use gralloc_gbm.BoData.Steps.{Changes}
use gralloc_gbm.Lock.Count.{unlock_data}
use gralloc_gbm.Lock.Run.{LockEnds}
use gralloc_gbm.Lock.{gralloc_gbm_android_buffer_lock}
use gralloc_gbm.Lock.Calls.{
  Manages, guarded, guarded_fault, gralloc_gbm_android_buffer_lock-LockEnds,
  gralloc_gbm_android_buffer_unlock-Runs,
}
use gralloc_gbm.Buffer.Made.{is_ready_lem}
use gralloc_gbm.Mapper.Standard.{MapperError, error_none}
use gralloc_gbm.Mapper.Gbm.{gbm_is_ready, gbm_lock_buffer, gbm_unlock_buffer}
use gralloc_gbm.Mapper.Front.{
  MapperBackendType, mapper_gralloc_gbm, NativeHandle, MapperSystem, MapperState, backend_of,
  select_mapper_backend, is_mapper_ready, check_current, on_backend, backend_lock, backend_unlock,
}
use gralloc_gbm.Mapper.Front.Requests.{mapper_result, mapper_lock, mapper_unlock}

module _ {W T V : Type 0} where
  -- The state with a backend selected.
  abbrev pub selected : MapperState W T V → MapperBackendType → MapperState W T V
  selected s b = record s { backend = some b }

  -- The state with another library state behind the GBM backend.
  abbrev pub with_library : MapperState W T V → State W T → MapperState W T V
  with_library s t = record s { library = t; backend = some mapper_gralloc_gbm }

module _ {W T V : Type 0} (p : Platform W T) (v : MapperSystem W V) (s : MapperState W T V)
    (n : NativeHandle) where
  pub on_backend_lem :
      {A : Type 0} (e : A) (k : MapperBackendType → Action (MapperState W T V) A)
      (b : MapperBackendType)
      → backend_of n.content ≡ b
      → is_mapper_ready p v b (selected s b) ≡ done (true, selected s b)
      → on_backend p v n.content e k s ≡ k b (selected s b)
  unfolding on_backend select_mapper_backend check_current
  on_backend_lem e k b chosen ready = rw (chosen, ready) refl

  pub ready_gbm_lem :
      (dr : Driver)
      → s.library.driver ≡ live dr
      → dr.ready ≡ true
      → is_mapper_ready p v mapper_gralloc_gbm (selected s mapper_gralloc_gbm)
        ≡ done (true, selected s mapper_gralloc_gbm)
  unfolding is_mapper_ready gbm_is_ready
  ready_gbm_lem dr e r = rw (is_ready_lem s.library dr e r) refl

  module _ (b : Buffer) (d : Ptr) (x : BoData) (m : Manages p s.library n.content b d x)
      (routed : backend_of n.content ≡ mapper_gralloc_gbm) where
    pub gbm_ready_lem :
        is_mapper_ready p v mapper_gralloc_gbm (selected s mapper_gralloc_gbm)
        ≡ done (true, selected s mapper_gralloc_gbm)
    gbm_ready_lem = ready_gbm_lem m.driver m.is_live m.is_ready

    module _ (keeps : KeepsUserData p) where
      -- The mapper's lock faults if the library's lock does, and else answers and changes the library's
      -- state as that lock does.
      abbrev pub LockPasses : ℕ → Option Fault → (Status × Option Ptr) × BoData → Type 0
      LockPasses cpu_usage none r =
          (t : State W T) × (mapper_lock p v (some n) cpu_usage s
            ≡ done ((mapper_result (is_ok r.0.0), r.0.1), with_library s t))
          × Changes p s.library d r.1 t
      LockPasses cpu_usage (some e) r = mapper_lock p v (some n) cpu_usage s ≡ fault e

      passed :
          (cpu_usage : ℕ) (e : Option Fault) (r : (Status × Option Ptr) × BoData)
          → cpu_usage ≢ 0
          → LockEnds p s.library d
              (gralloc_gbm_android_buffer_lock p n.content (u32 cpu_usage) s.library)
              e
              r
          → LockPasses cpu_usage e r
      unfolding mapper_lock backend_lock gbm_lock_buffer
      passed cpu_usage none r ne (t, e, c) = (
        t,
        rw
            (
              ==_ne cpu_usage 0 ne,
              on_backend_lem {A = MapperError × Option Ptr} _ _ mapper_gralloc_gbm routed
                  gbm_ready_lem,
              e,
            )
            refl,
        c,
      )
      passed cpu_usage (some y) r ne e =
          rw
            (
              ==_ne cpu_usage 0 ne,
              on_backend_lem {A = MapperError × Option Ptr} _ _ mapper_gralloc_gbm routed
                  gbm_ready_lem,
              e,
            )
            refl

      -- With a ready driver and a managed buffer of the GBM backend, the mapper's lock for a usage
      -- other than 0 runs into what `guarded_fault` says of the library's lock of the low 32 bits of
      -- the usage (a mapping whose stride is not that of the object, or one lock more than `INT_MAX`),
      -- and else returns. It then reports success exactly if `guarded` does, with the address that
      -- it gives, and changes the data of the buffer as it says.
      pub mapper_lock-LockPasses :
          (cpu_usage : ℕ)
          → cpu_usage ≢ 0
          → LockPasses cpu_usage
              (guarded_fault p s.library n.content b x (u32 cpu_usage))
              (guarded p s.library n.content b x (u32 cpu_usage))
      mapper_lock-LockPasses cpu_usage ne =
          passed cpu_usage (guarded_fault p s.library n.content b x (u32 cpu_usage)) _ ne (
            gralloc_gbm_android_buffer_lock-LockEnds p keeps s.library n.content b d x m
              (u32 cpu_usage))

      -- With a ready driver and a managed buffer of the GBM backend, the mapper's unlock always
      -- succeeds and changes the data of the buffer as the library's unlock does.
      pub mapper_unlock-Runs :
          (t : State W T) × (mapper_unlock p v (some n) s ≡ done (error_none, with_library s t))
          × Changes p s.library d (unlock_data x) t
      unfolding mapper_unlock backend_unlock gbm_unlock_buffer
      mapper_unlock-Runs =
          let (t, e, c) =
            gralloc_gbm_android_buffer_unlock-Runs p keeps s.library n.content b d x m in
          (t, rw (on_backend_lem _ _ mapper_gralloc_gbm routed gbm_ready_lem, e) refl, c)
