-- ===== src/Mapper/Life/Changed.antt =====
-- Freeing, importing, reading and setting by mapper_stablec/Mapper.cpp, in a mapper that is kept.
use gralloc_gbm.Base.{refl, Option, none, some}
use gralloc_gbm.Machine.{is_ok}
use gralloc_gbm.Machine.Runs.{same_end}
use gralloc_gbm.Platform.{Platform}
use gralloc_gbm.Platform.Laws.{KeepsUserData}
use gralloc_gbm.Table.Entries.{IsHash}
use gralloc_gbm.Handle.{Handle}
use gralloc_gbm.Library.Start.{HasPhase, opened}
use gralloc_gbm.Library.Freed.{free-IsSound}
use gralloc_gbm.Mapper.Gbm.{gbm_free_buffer}
use gralloc_gbm.Mapper.DmaBuf.{free_buffer}
use gralloc_gbm.Mapper.Tracked.Steps.{freeing, step-TracksAll}
use gralloc_gbm.Mapper.Front.{
  MapperBackendType, mapper_gralloc_gbm, mapper_gralloc_dmabuf, NativeHandle, MapperSystem,
  MapperState, backend_free, is_success,
}
use gralloc_gbm.Mapper.Front.Requests.{mapper_free_buffer}
use gralloc_gbm.Mapper.Life.{IsKept, IsReadyFor}
use gralloc_gbm.Mapper.Life.Calls.{
  Keeps, Keeps-pure, in_library-Keeps, in_dma-Keeps, on_backend-Keeps,
}

module _ {W T V : Type 0} (p : Platform W T) (v : MapperSystem W V) (hash : IsHash p)
    (keeps : KeepsUserData p) where
  free-Keeps :
      (h : Handle) (b : MapperBackendType) (u : MapperState W T V)
      → IsReadyFor p b u
      → Keeps p (backend_free p v h b u)
  unfolding backend_free gbm_free_buffer
  free-Keeps h mapper_gralloc_gbm u ((f, w), d) = Keeps-pure p _ is_ok (
      in_library-Keeps p u (gbm_free_buffer p h)
        (λ r t e.
          let (t', e', w') = free-IsSound p hash keeps u.library f w h in
          same_end (HasPhase p) e e' (opened _ w'))
        d)
  free-Keeps h mapper_gralloc_dmabuf u (l, a) =
      Keeps-pure p _ is_success
        (in_dma-Keeps p u (free_buffer h) (λ r t e. step-TracksAll v.dma a (freeing h r e)) l)

  pub mapper_free-Keeps :
      (s : MapperState W T V)
      → IsKept p s
      → (n : Option NativeHandle) → Keeps p (mapper_free_buffer p v n s)
  unfolding mapper_free_buffer
  mapper_free-Keeps s k none r t e = same_end (IsKept p) e refl k
  mapper_free-Keeps s k (some n) r t e =
      on_backend-Keeps p v hash n.content _ _ s k
        (λ u (ready, c). Keeps-pure p _ _ (free-Keeps n.content _ u ready)) r t e
