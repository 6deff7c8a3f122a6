-- ===== src/Mapper/Life.antt =====
-- The mapper of mapper_stablec/Mapper.cpp between requests: what holds of the library and of the DMA-BUF
-- backend, and what CHECK_BACKEND makes of it.
pub mod Calls
pub mod Held
pub mod Changed
pub mod Imports
pub mod Settings
pub mod Reading
pub mod Writing
pub mod Steps
pub mod Reach
use gralloc_gbm.Base.{
  ℕ, ◌≡◌, refl, true, false, Bool, Option, none, some, ◌&&◌, not, Bool-cases, inl, inr, ◌∙◌, sym,
  subst,
}
use gralloc_gbm.Machine.{Ptr, use_after_free, is_ok, Outcome, done, fault}
use gralloc_gbm.Platform.{Platform}
use gralloc_gbm.State.{State}
use gralloc_gbm.Table.Entries.{IsHash}
use gralloc_gbm.Table.Map.{BufferMap}
use gralloc_gbm.Buffer.Made.{is_ready_lem}
use gralloc_gbm.Library.{IsSound}
use gralloc_gbm.Library.Start.{
  IsSoundState, IsUnopened, IsBroken, HasPhase, unopened, opened, broken, Opens, init-Opens,
  no_driver_lem, freed_driver_lem,
}
use gralloc_gbm.Mapper.DmaBuf.{DmaSystem, DmaState, mapper_dma_is_ready, mapper_dma_init}
use gralloc_gbm.Mapper.Gbm.{gbm_is_ready, gbm_init}
use gralloc_gbm.Mapper.Tracked.{IsTracked, TracksAll}
use gralloc_gbm.Mapper.Front.{
  MapperBackendType, mapper_gralloc_gbm, mapper_gralloc_dmabuf, NativeHandle, MapperSystem,
  MapperState, is_mapper_ready, init_mapper, check_current,
}

-- The DMA-BUF backend before its initialisation.
pub record IsIdleDma {V : Type 0} (s : DmaState V) : Type 0 where
  pub absent : s.has_allocator ≡ false
  pub empty : (fd : ℕ) → s.imported_buffer_table fd ≡ none

pub data DmaPhase {V : Type 0} (s : DmaState V) : Type 0 where
  idle : IsIdleDma s → DmaPhase s
  tracking : TracksAll s → DmaPhase s

-- What holds between requests.
pub record IsKept {W T V : Type 0} (p : Platform W T) (s : MapperState W T V) : Type 0 where
  pub library : HasPhase p s.library
  pub dma : DmaPhase s.dma

-- What a backend has when it is called.
abbrev pub IsReadyFor :
    {W T V : Type 0} → Platform W T → MapperBackendType → MapperState W T V → Type 0
IsReadyFor p mapper_gralloc_gbm s = IsSoundState p s.library × DmaPhase s.dma
IsReadyFor p mapper_gralloc_dmabuf s = HasPhase p s.library × TracksAll s.dma

module _ {W T V : Type 0} (p : Platform W T) (v : MapperSystem W V) where
  -- The ends of `CHECK_BACKEND`.
  pub data Checks (b : MapperBackendType) (s : MapperState W T V) : Type 0 where
    usable :
        (u : MapperState W T V)
        → check_current p v (some b) s ≡ done (true, u)
        → IsReadyFor p b u
        → Checks b s
    refused :
        (u : MapperState W T V)
        → check_current p v (some b) s ≡ done (false, u)
        → IsKept p u
        → Checks b s
    faulty : check_current p v (some b) s ≡ fault use_after_free → IsBroken p s.library → Checks b s

  gbm_sound :
      (s : MapperState W T V) (f : BufferMap)
      → IsSound p s.library f
      → check_current p v (some mapper_gralloc_gbm) s ≡ done (true, s)
  unfolding check_current is_mapper_ready gbm_is_ready
  gbm_sound s f w = rw (is_ready_lem s.library w.driver w.is_live w.is_ready) refl

  gbm_broken :
      (s : MapperState W T V)
      → IsBroken p s.library
      → check_current p v (some mapper_gralloc_gbm) s ≡ fault use_after_free
  unfolding check_current is_mapper_ready gbm_is_ready
  gbm_broken s i = rw (freed_driver_lem p s.library i) refl

  gbm_unopened :
      (s : MapperState W T V)
      → IsUnopened p s.library
      → DmaPhase s.dma
      → IsHash p
      → Checks mapper_gralloc_gbm s
  unfolding check_current is_mapper_ready init_mapper gbm_is_ready gbm_init
  gbm_unopened s i d hash =
      let (r, t, e, phase, sound) = init-Opens p hash s.library i in
      elim (Bool-cases (is_ok r)) [
        | inl succeeded ↦
            usable (record s { library = t }) (rw (no_driver_lem p s.library i, e, succeeded) refl)
              (sound succeeded, d)
        | inr failed ↦
            refused (record s { library = t }) (rw (no_driver_lem p s.library i, e, failed) refl)
              (record { library = phase; dma = d })
      ]

  initialised_dma : (s : DmaState V) → DmaPhase s → TracksAll (record s { has_allocator = true })
  initialised_dma s (idle i) = record {
    allocator = refl;
    entry = λ fd bi e. let clash : none ≡ some bi = sym (i.empty fd) ∙ e in absurd (cc);
  }
  initialised_dma s (tracking a) = record {
    allocator = refl;
    entry = λ fd bi e.
        let q = a.entry fd bi e in
        record {
          info = q.info;
          holds = q.holds;
          bi_ne = q.bi_ne;
          before = q.before;
          about = q.about;
        };
  }

  ready_dma :
      (s : DmaState V)
      → DmaPhase s
      → (s.has_allocator && not (v.dma.no_heap_left s.world)) ≡ true
      → TracksAll s
  ready_dma s (tracking a) e = a
  ready_dma s (idle i) e =
      let clash : false ≡ true =
        subst (λ b. (b && not (v.dma.no_heap_left s.world)) ≡ true) i.absent e in
      absurd (cc)

  -- Once it has been selected, the DMA-BUF backend is always usable.
  dma-Checks : (s : MapperState W T V) → IsKept p s → Checks mapper_gralloc_dmabuf s
  unfolding check_current is_mapper_ready init_mapper mapper_dma_is_ready mapper_dma_init
  dma-Checks s k = elim (Bool-cases (s.dma.has_allocator && not (v.dma.no_heap_left s.dma.world))) [
    | inl ready ↦ usable s (rw ready refl) (k.library, ready_dma s.dma k.dma ready)
    | inr other ↦
        usable (record s { dma = record s.dma { has_allocator = true } }) (rw other refl)
          (k.library, initialised_dma s.dma k.dma)
  ]

  pub check-Checks :
      IsHash p → (b : MapperBackendType) (s : MapperState W T V) → IsKept p s → Checks b s
  check-Checks hash mapper_gralloc_dmabuf s k = dma-Checks s k
  check-Checks hash mapper_gralloc_gbm s k = by_phase k.library
    where
      by_phase : HasPhase p s.library → Checks mapper_gralloc_gbm s
      by_phase (unopened i) = gbm_unopened s i k.dma hash
      by_phase (opened f w) = usable s (gbm_sound s f w) ((f, w), k.dma)
      by_phase (broken i) = faulty (gbm_broken s i) i
