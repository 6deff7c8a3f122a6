-- ===== src/Mapper/Life/Imports.antt =====
-- Importing a buffer by mapper_stablec/Mapper.cpp, in a mapper that is kept.
use gralloc_gbm.Base.{
  ℕ, ◌≡◌, refl, true, false, Bool, Option, none, some, ◌==◌, if◌then◌else◌, Bool-cases, inl, inr,
}
use gralloc_gbm.Machine.{Ptr, is_ok, pure, ◌>>◌}
use gralloc_gbm.Machine.Runs.{same_end, and_then_parts}
use gralloc_gbm.Flags.{Config}
use gralloc_gbm.Platform.{Platform}
use gralloc_gbm.Platform.Laws.{KeepsUserData}
use gralloc_gbm.State.{State, outside}
use gralloc_gbm.Handle.{Handle}
use gralloc_gbm.Table.Entries.{IsHash}
use gralloc_gbm.Library.Start.{HasPhase, unopened, opened, broken}
use gralloc_gbm.Library.Outside.{world-IsSound}
use gralloc_gbm.Library.Imports.{import-StaysSound}
use gralloc_gbm.Mapper.Gbm.{gbm_import_buffer}
use gralloc_gbm.Mapper.DmaBuf.{import_buffer}
use gralloc_gbm.Mapper.Standard.{MapperError, error_none, error_no_resources}
use gralloc_gbm.Mapper.Tracked.Steps.{importing, step-TracksAll}
use gralloc_gbm.Mapper.Front.{
  MapperBackendType, mapper_gralloc_gbm, mapper_gralloc_dmabuf, NativeHandle, MapperSystem,
  MapperState, in_library, backend_import, is_success,
}
use gralloc_gbm.Mapper.Front.Requests.{import_clone, mapper_import_buffer}
use gralloc_gbm.Mapper.Life.{IsKept, IsReadyFor, tracking}
use gralloc_gbm.Mapper.Life.Calls.{
  Keeps, Keeps-pure, in_library-Keeps, in_dma-Keeps, on_backend-Keeps,
}

-- Cloning and closing handles leaves the user data of buffer objects alone.
pub record KeepsObjects {W T V : Type 0} (p : Platform W T) (v : MapperSystem W V) : Type 0 where
  pub clone :
      (w : W) (n : NativeHandle) (bo : Ptr)
      → p.get_user_data (v.handle_clone w n).1 bo ≡ p.get_user_data w bo
  pub close :
      (w : W) (n : NativeHandle) (bo : Ptr)
      → p.get_user_data (v.handle_close w n) bo ≡ p.get_user_data w bo

module _ {W T : Type 0} (p : Platform W T) where
  pub ready-IsKept :
      {V : Type 0} (b : MapperBackendType) (u : MapperState W T V) → IsReadyFor p b u → IsKept p u
  ready-IsKept mapper_gralloc_gbm u ((f, k), d) = record { library = opened f k; dma = d }
  ready-IsKept mapper_gralloc_dmabuf u (l, a) = record { library = l; dma = tracking a }

  -- A step of the world that keeps the user data keeps the kind of the state.
  world-HasPhase :
      (s : State W T) (w : W)
      → HasPhase p s
      → ((bo : Ptr) → p.get_user_data w bo ≡ p.get_user_data s.world bo)
      → HasPhase p (record s { world = w })
  world-HasPhase s w (unopened i) same =
      unopened (record { absent = i.absent; empty = i.empty; started = i.started })
  world-HasPhase s w (opened f k) same = opened f (world-IsSound p s f k w (λ bo ne. same bo))
  world-HasPhase s w (broken i) same = broken (record { freed = i.freed })

module _ {W T V : Type 0} (c : Config) (p : Platform W T) (v : MapperSystem W V) (hash : IsHash p)
    (keeps : KeepsUserData p) (memory : (n : ℕ) → p.no_memory n ≡ false)
    (objects : KeepsObjects p v) where
  -- A step of the world keeps the mapper.
  world-IsKept :
      (u : MapperState W T V) (w : W)
      → IsKept p u
      → ((bo : Ptr) → p.get_user_data w bo ≡ p.get_user_data u.library.world bo)
      → IsKept p (record u { library = record u.library { world = w } })
  world-IsKept u w k same = record {
    library = world-HasPhase p u.library w k.library same;
    dma = k.dma;
  }

  world-IsReadyFor :
      (b : MapperBackendType) (u : MapperState W T V) (w : W)
      → IsReadyFor p b u
      → ((bo : Ptr) → p.get_user_data w bo ≡ p.get_user_data u.library.world bo)
      → IsReadyFor p b (record u { library = record u.library { world = w } })
  world-IsReadyFor mapper_gralloc_gbm u w ((f, k), d) same =
      ((f, world-IsSound p u.library f k w (λ bo ne. same bo)), d)
  world-IsReadyFor mapper_gralloc_dmabuf u w (l, a) same = (world-HasPhase p u.library w l same, a)

  backend_import-Keeps :
      (h : Handle) (b : MapperBackendType) (u : MapperState W T V)
      → IsReadyFor p b u
      → Keeps p (backend_import c p v h b u)
  unfolding backend_import gbm_import_buffer
  backend_import-Keeps h mapper_gralloc_gbm u ((f, w), d) = Keeps-pure p _ is_ok (
      in_library-Keeps p u (gbm_import_buffer c p h)
        (λ r t e. opened f (import-StaysSound c p hash keeps memory u.library f w h r t e)) d)
  backend_import-Keeps h mapper_gralloc_dmabuf u (l, a) = Keeps-pure p _ is_success (
      in_dma-Keeps p u (import_buffer v.dma h) (λ r t e. step-TracksAll v.dma a (importing h r e))
        l)

  -- The clone is closed if it is not imported.
  clone_closed :
      (n : NativeHandle) (imported : Bool) (u : MapperState W T V)
      → IsKept p u
      → Keeps {R = MapperError × Option NativeHandle} p (
          (if imported then pure (error_none, some n) else do
            in_library (outside λ w. (tt, v.handle_close w n))
            pure (error_no_resources, none))
            u)
  clone_closed n true u k r t e = same_end (IsKept p) e refl k
  clone_closed n false u k r t e =
      same_end (IsKept p) e refl (world-IsKept u _ k (objects.close u.library.world n))

  import_clone-Keeps :
      (b : MapperBackendType) (cloned : Option NativeHandle) (u : MapperState W T V)
      → IsReadyFor p b u
      → Keeps p (import_clone c p v b cloned u)
  unfolding import_clone
  import_clone-Keeps b none u ready r t e = same_end (IsKept p) e refl (ready-IsKept p b u ready)
  import_clone-Keeps b (some n) u ready r t e =
      let (imported, t', run, rest) = and_then_parts (backend_import c p v n.content b u) _ e in
      clone_closed n imported t' (backend_import-Keeps n.content b u ready imported t' run) r t rest

  pub mapper_import-Keeps :
      (s : MapperState W T V)
      → IsKept p s
      → (o : Option NativeHandle) → Keeps p (mapper_import_buffer c p v o s)
  unfolding mapper_import_buffer
  mapper_import-Keeps s k none = (λ r t e. same_end (IsKept p) e refl k)
  mapper_import-Keeps s k (some n) = elim (Bool-cases (n.num_fds == 0)) [
    | inl no_fds ↦ rw no_fds (λ r t e. same_end (IsKept p) e refl k)
    | inr fds ↦ rw fds (
        on_backend-Keeps p v hash n.content _ _ s k (λ u (ready, checked).
          import_clone-Keeps _ (v.handle_clone u.library.world n).0 _
            (world-IsReadyFor _ u _ ready (objects.clone u.library.world n))))
  ]
